-- ===== src/Client/Opening/Balance.antt =====
-- The connection that a stream takes is given back.
use go_vkit.Prelude.{
  ℕ, suc, ◌+◌, ◌≡◌, refl, Bool, true, false, List, [], ◌∷◌, Option, none, some, arith,
  if◌then◌else◌, length, Bytes, Bool-cases, inl, inr,
}
use go_vkit.Codec.{Codec}
use go_vkit.Client.Opening.{
  Request, PoolCall, took, released, Opened, failed, opened, Opening, create_stream, take_conn,
  open_stream,
}
use go_vkit.Client.Stream.{new_stream, Call, calls}
use go_vkit.Client.Stream.Released.{calls-Once}

-- How often the pool gave a connection out, and took one back.
abbrev pub taken : List PoolCall → ℕ
taken [] = 0
taken (took ∷ cs) = suc (taken cs)
taken (released e ∷ cs) = taken cs

abbrev pub given_back : List PoolCall → ℕ
given_back [] = 0
given_back (took ∷ cs) = given_back cs
given_back (released e ∷ cs) = suc (given_back cs)

-- How often the stream, if there is one, gave a connection back when these methods of it have been called, and
-- whether it is open then.
abbrev pub given_later : (Bytes → Bool) → Opened → List (Call Bytes) → ℕ
given_later is_eof (failed e) cs = 0
given_later is_eof (opened s) cs = length (calls is_eof cs s).released

abbrev pub open_after : (Bytes → Bool) → Opened → List (Call Bytes) → Bool
open_after is_eof (failed e) cs = false
open_after is_eof (opened s) cs = if (calls is_eof cs s).closed then false else true

abbrev pub Balanced : (Bytes → Bool) → Opening → List (Call Bytes) → Type 0
Balanced is_eof o cs =
    taken o.pool
    ≡ (given_back o.pool + given_later is_eof o.result cs)
      + (if open_after is_eof o.result cs then 1 else 0)

module _ (sprintf : Bytes → Bytes) (is_eof : Bytes → Bool) (cs : List (Call Bytes)) where
  take_conn-Balanced :
      (dial created : Option Bytes) → Balanced is_eof (take_conn sprintf dial created) cs
  unfolding take_conn create_stream
  take_conn-Balanced none none = elim (Bool-cases (calls is_eof cs new_stream).closed) [
    | inl e ↦ ground (arith, e, calls-Once is_eof cs)
    | inr e ↦ ground (arith, e, calls-Once is_eof cs)
  ]
  take_conn-Balanced none (some e) = refl
  take_conn-Balanced (some e) created = refl

-- Whatever fails while a stream is opened, and however its methods are called then: NewStream and the stream
-- together have given every connection back that they took of the pool, but for the one that an open stream
-- still has.
pub open_stream-Balanced :
    (sprintf : Bytes → Bytes) (r : Request) (dial created : Option Bytes) (is_eof : Bytes → Bool)
    (cs : List (Call Bytes))
    → Balanced is_eof (open_stream sprintf r dial created) cs
unfolding open_stream
open_stream-Balanced sprintf r dial created is_eof cs = go r.codec refl
  where
    go : (c : Option Codec) → r.codec ≡ c → Balanced is_eof (open_stream sprintf r dial created) cs
    go none q = rw (q, open_stream)
    go (some c) q = rw (q, open_stream) (take_conn-Balanced sprintf is_eof cs dial created)
