-- ===== src/Replies/Panics.antt =====
-- No type of the field Code takes every error.
use go_vkit.Prelude.{◌≡◌, ◌≢◌, refl, ◌⊎◌, inl, inr, Bytes}
use go_vkit.Errors.{NetError, Error, net, other}
use go_vkit.Server.Handler.{Outcome, returned, panicked}
use go_vkit.Replies.{
  Value, Field, any, unset, int, int32_field, string, other_field, Response, set_value, set_fields,
  fetch_err,
}

abbrev pub Panics {ℓ} : {A : Type ℓ} → Outcome A → Type 0
Panics (returned a) = ⊥
Panics (panicked e) = Unit

-- A response whose field Code can be set and is no interface, whatever its type: of a NetError and an error that is
-- neither that nor an Errno, FetchErr panics on one.
pub fetch_err-Panics :
    (text : Error → Bytes) (resp : Response) (e : NetError) (t : Bytes)
    → resp.code ≢ unset
    → ((v : Value) → resp.code ≢ any v)
    → Panics (fetch_err text resp (net e)) ⊎ Panics (fetch_err text resp (other t))
unfolding fetch_err set_fields set_value
fetch_err-Panics text resp e t h k = go resp.code refl
  where
    go :
        (c : Field)
        → resp.code ≡ c
        → Panics (fetch_err text resp (net e)) ⊎ Panics (fetch_err text resp (other t))
    go unset q = absurd (h q)
    go (int n) q = inl (rw (q, fetch_err, set_fields, set_value) tt)
    go (int32_field n) q = inr (rw (q, fetch_err, set_fields, set_value) tt)
    go (string s) q = inl (rw (q, fetch_err, set_fields, set_value) tt)
    go (any v) q = absurd (k v q)
    go other_field q = inl (rw (q, fetch_err, set_fields, set_value) tt)
