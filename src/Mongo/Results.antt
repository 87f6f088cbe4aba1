-- ===== src/Mongo/Results.antt =====
-- What the methods of mongox/mongox.go make of the driver's results. `V` is what the caller's pointer leads to.
use go_vkit.Prelude.{◌≡◌, refl, sym, List, Option, none, some, Bytes, Result, ok, err}

-- A SingleResult: its error, and what Decode leaves in the caller's value with the error that it returns.
pub record SingleResult {ℓ} (V : Type ℓ) : Type ℓ where
  pub error : Option Bytes
  pub decode : V → V × Option Bytes

module _ {ℓ} {V : Type ℓ} where
  -- QueryById looks at the error first.
  unfoldable pub found_by_id : SingleResult V → V → V × Option Bytes
  found_by_id r old = elim r.error [ none ↦ r.decode old | some e ↦ (old, some e) ]

  -- QueryLatest and QueryOne leave that to Decode.
  unfoldable pub found_one : SingleResult V → V → V × Option Bytes
  found_one r old = r.decode old

  -- DistinctQuery: the values go through encoding/json.
  remarshalled : (unmarshal : Bytes → V → V × Option Bytes) → V → Result Bytes → V × Option Bytes
  remarshalled unmarshal old (err e) = (old, some e)
  remarshalled unmarshal old (ok b) = unmarshal b old

  pub distinct_result {κ} :
      {A : Type κ} (marshal : List A → Result Bytes) (unmarshal : Bytes → V → V × Option Bytes)
      → Result (List A)
      → V
      → V × Option Bytes
  unfolding remarshalled
  distinct_result marshal unmarshal (err e) old = (old, some e)
  distinct_result marshal unmarshal (ok array) old = remarshalled unmarshal old (marshal array)

module _ {ℓ} {V : Type ℓ} where
  -- Decode returns the error of a result that has one, and does not touch the value: so the driver has it.
  pub found_by_id-found_one :
      (r : SingleResult V) (old : V)
      → ((e : Bytes) → r.error ≡ some e → r.decode old ≡ (old, some e))
      → found_by_id r old ≡ found_one r old
  unfolding found_by_id found_one
  found_by_id-found_one r old keeps = go r.error refl
    where
      go :
          (o : Option Bytes)
          → r.error ≡ o
          → (elim o [ none ↦ r.decode old | some e ↦ (old, some e) ]) ≡ r.decode old
      go none h = refl
      go (some e) h = sym (keeps e h)
