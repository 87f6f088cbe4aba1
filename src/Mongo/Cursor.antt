-- ===== src/Mongo/Cursor.antt =====
-- iterate of mongox/internal.go. The documents that the cursor still has are a list; a slice is the cells of
-- its array up to its capacity, of which it holds the first ones.
pub mod Decoded
use go_vkit.Prelude.{
  ℕ, zero, suc, ◌+◌, ◌-◌, Bool, true, false, List, [], ◌∷◌, ◌++◌, Option, none, some, length, take,
  drop, get_elem?, ltb, if◌then◌else◌,
}

-- What Decode leaves in a value, and its error; ErrDecodeToNil counts as none.
pub record Decoding {ℓ} (V : Type ℓ) : Type ℓ where
  pub value : V
  pub failed : Bool

-- The elements of the caller's slice after iterate, and whether it returns an error.
pub record Iterated {ℓ} (V : Type ℓ) : Type ℓ where
  pub result : List V
  pub failed : Bool

-- How the loop ends: with an error, after which the caller's array has these cells; or with the index and the
-- cells of the last array.
pub data Looped {ℓ} (V : Type ℓ) : Type ℓ where
  stopped : (own : List V) → Looped V
  ended : ℕ → (cells : List V) → Looped V

module _ {ℓ} {V : Type ℓ} where
  -- Decode into the cell at `i`.
  write_cell : List V → ℕ → V → List V
  write_cell cells i v = take i cells ++ (v ∷ drop (suc i) cells)

  zeros : V → ℕ → List V
  zeros zero_value zero = []
  zeros zero_value (suc n) = zero_value ∷ zeros zero_value n

  -- The cells of the caller's array: those that the loop is in, until Append has moved to a new array and left
  -- `some` old cells behind.
  own_cells : (cells : List V) → (left : Option (List V)) → List V
  own_cells cells none = cells
  own_cells cells (some own) = own

  -- The caller's slice keeps its array and its length `n` if there is an error.
  finish : (n : ℕ) → Looped V → Iterated V
  finish n (stopped own) = record { result = take n own; failed = true }
  finish n (ended i cells) = record { result = take i cells; failed = false }

module _ {ℓ κ} {V : Type ℓ} {D : Type κ} (zero_value : V) (decode : V → D → Decoding V)
    (grow : ℕ → ℕ) where
  -- reflect.Append at the end of the array, which makes room for `grow` more cells, all zero, and the new
  -- slice with all of them.
  append_cell : List V → V → List V
  unfolding zeros
  append_cell cells v = cells ++ (v ∷ zeros zero_value (grow (length cells)))

  -- The loop, from the cell `i`. At the end of the array a new value is decoded, and else the cell itself.
  loop : List D → ℕ → (cells : List V) → (left : Option (List V)) → Looped V
  unfolding write_cell append_cell own_cells
  loop [] i cells left = ended i cells
  loop (d ∷ ds) i cells left = elim (get_elem? cells i) [
    | none ↦
        let r = decode zero_value d in
        elim r.failed [
          | true ↦ stopped (own_cells cells left)
          | false ↦ loop ds (suc i) (append_cell cells r.value) (some (own_cells cells left))
        ]
    | some old ↦
        let r = decode old d in
        elim r.failed [
          | true ↦ stopped (own_cells (write_cell cells i r.value) left)
          | false ↦ loop ds (suc i) (write_cell cells i r.value) left
        ]
  ]

  -- `result` is the slice that was handed in, `spare` the cells of its array behind it.
  pub iterate : (result spare : List V) → List D → Iterated V
  unfolding loop finish
  iterate result spare docs = finish (length result) (loop docs 0 (result ++ spare) none)
