-- ===== src/Prelude/Results.antt =====
-- What a call returns beside an `error`: the result, or the text of the error.
use mathlib.Core.Option.{Option, none, some}
use go_vkit.Prelude.Text.{Bytes}

pub data Result {ℓ} (A : Type ℓ) : Type ℓ where
  ok : A → Result A
  err : Bytes → Result A

abbrev pub error_of {ℓ} : {A : Type ℓ} → Result A → Option Bytes
error_of (ok a) = none
error_of (err e) = some e
