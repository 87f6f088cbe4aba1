-- ===== src/Mongo/Cursor/Decoded.antt =====
-- What a query leaves in its result.
use go_vkit.Prelude.{
  ℕ, suc, zero, ◌≡◌, refl, sym, ap, ◌∙◌, true, false, List, [], ◌∷◌, ◌++◌, append_assoc, append-nil,
  length-snoc, Option, none, some, length, All, take, get_elem?, if◌then◌else◌, Bool-cases, inl,
  inr,
}
use mathlib.Core.Option
use go_vkit.Mongo.Cursor.{
  Decoding, Iterated, write_cell, zeros, own_cells, append_cell, loop, finish, iterate,
}

-- Every document decoded on its own, if all can be.
abbrev pub decode_all {ℓ κ} :
    {V : Type ℓ} {D : Type κ} → (D → Decoding V) → List D → Option (List V)
decode_all f [] = some []
decode_all f (d ∷ ds) =
    let rest = decode_all f ds in
    if (f d).failed then none else Option.map (λ vs. (f d).value ∷ vs) rest

-- What is decoded until the first failure, with what Decode leaves in the value then.
abbrev pub decode_some {ℓ κ} : {V : Type ℓ} {D : Type κ} → (D → Decoding V) → List D → List V
decode_some f [] = []
decode_some f (d ∷ ds) =
    let rest = decode_some f ds in (f d).value ∷ (if (f d).failed then [] else rest)

-- The cells of an array after these values were written to it from the start, as far as there is room.
abbrev pub overwrite {ℓ} : {V : Type ℓ} → List V → List V → List V
overwrite [] cells = cells
overwrite (v ∷ vs) [] = []
overwrite (v ∷ vs) (c ∷ cells) = v ∷ overwrite vs cells

-- A result of the decoded documents, or `left` and an error.
abbrev pub outcome {ℓ} : {V : Type ℓ} → (left : List V) → Option (List V) → Iterated V
outcome left none = record { result = left; failed = true }
outcome left (some vs) = record { result = vs; failed = false }

module _ {ℓ} {A : Type ℓ} where
  get_elem?_end : (xs : List A) → get_elem? (xs ++ []) (length xs) ≡ none
  get_elem?_end [] = refl
  get_elem?_end (x ∷ xs) = get_elem?_end xs

  get_elem?_mid : (xs ys : List A) (y : A) → get_elem? (xs ++ y ∷ ys) (length xs) ≡ some y
  get_elem?_mid [] ys y = refl
  get_elem?_mid (x ∷ xs) ys y = get_elem?_mid xs ys y

  take-length : (xs ys : List A) → take (length xs) (xs ++ ys) ≡ xs
  take-length [] [] = refl
  take-length [] (y ∷ ys) = refl
  take-length (x ∷ xs) ys = ap (λ t. x ∷ t) (take-length xs ys)

  write_cell_lem :
      (xs ys : List A) (y v : A) → write_cell (xs ++ y ∷ ys) (length xs) v ≡ xs ++ v ∷ ys
  unfolding write_cell
  write_cell_lem [] ys y v = refl
  write_cell_lem (x ∷ xs) ys y v = ap (λ t. x ∷ t) (write_cell_lem xs ys y v)

map_id {ℓ} : {A : Type ℓ} (o : Option (List A)) → Option.map (λ vs. [] ++ vs) o ≡ o
map_id none = refl
map_id (some vs) = refl

module _ {ℓ κ} {V : Type ℓ} {D : Type κ} (zero_value : V) (decode : V → D → Decoding V)
    (grow : ℕ → ℕ) where
  -- The cells from `i` on hold zero values.
  abbrev Zeroed : List V → Type ℓ
  Zeroed = All (λ v. v ≡ zero_value)

  zeros-Zeroed : (n : ℕ) → Zeroed (zeros zero_value n)
  unfolding zeros
  zeros-Zeroed zero = tt
  zeros-Zeroed (suc n) = (refl, zeros-Zeroed n)

  appended :
      (done : List V) (v : V)
      → append_cell zero_value decode grow (done ++ []) v
        ≡ (done ++ v ∷ []) ++ zeros zero_value (grow (length (done ++ [])))
  unfolding append_cell
  appended done v =
      ap (λ t. t ++ v ∷ zeros zero_value (grow (length (done ++ [])))) (append-nil done)
      ∙ sym (append_assoc done (v ∷ []) _)

  written :
      (done rest : List V) (y v : V)
      → write_cell (done ++ y ∷ rest) (length done) v ≡ (done ++ v ∷ []) ++ rest
  written done rest y v = write_cell_lem done rest y v ∙ sym (append_assoc done (v ∷ []) rest)

  -- The next round, with the cells written as those that are done and the rest.
  next_cell :
      (n : ℕ) (left : Option (List V)) (ds : List D) (done : List V) (v : V) (cells rest : List V)
      → cells ≡ (done ++ v ∷ []) ++ rest
      → finish n (loop zero_value decode grow ds (suc (length done)) cells left)
        ≡ finish n (
            loop zero_value decode grow ds
              (length (done ++ v ∷ []))
              ((done ++ v ∷ []) ++ rest)
              left)
  next_cell n left ds done v cells rest e =
      rw (length-snoc done v)
        (ap (λ c. finish n (loop zero_value decode grow ds (suc (length done)) c left)) e)

  outcome_step :
      (old done : List V) (v : V) (o : Option (List V))
      → outcome old (Option.map (λ vs. (done ++ v ∷ []) ++ vs) o)
        ≡ outcome old (Option.map (λ vs. done ++ vs) (Option.map (λ vs. v ∷ vs) o))
  outcome_step old done v none = refl
  outcome_step old done v (some vs) = ap (λ t. outcome old (some t)) (append_assoc done (v ∷ []) vs)

  -- After the loop has left the caller's array, with the cells `own`.
  loop_moved :
      (n : ℕ) (own : List V) (ds : List D) (done rest : List V)
      → Zeroed rest
      → finish n (loop zero_value decode grow ds (length done) (done ++ rest) (some own))
        ≡ outcome (take n own) (Option.map (λ vs. done ++ vs) (decode_all (decode zero_value) ds))
  unfolding loop finish append_cell own_cells
  loop_moved n own [] done rest z =
      ap (λ t. outcome (take n own) (some t)) (take-length done rest ∙ sym (append-nil done))
  loop_moved n own (d ∷ ds) done [] z = elim (Bool-cases (decode zero_value d).failed) [
    | inl fails ↦ rw (get_elem?_end done, fails, loop)
    | inr ok ↦
        let v = (decode zero_value d).value in
        rw (get_elem?_end done, ok, loop)
          (next_cell n (some own) ds done v (append_cell zero_value decode grow (done ++ []) v)
              (zeros zero_value (grow (length (done ++ [])))) (appended done v)
            ∙ loop_moved n own ds (done ++ v ∷ []) (zeros zero_value (grow (length (done ++ []))))
                (zeros-Zeroed _)
            ∙ outcome_step (take n own) done v (decode_all (decode zero_value) ds))
  ]
  loop_moved n own (d ∷ ds) done (c ∷ rest) (e, z) =
      rw (e) (elim (Bool-cases (decode zero_value d).failed) [
        | inl fails ↦ rw (get_elem?_mid done rest zero_value, fails, loop)
        | inr ok ↦
            let v = (decode zero_value d).value in
            rw (get_elem?_mid done rest zero_value, ok, loop)
              (next_cell n (some own) ds done v
                  (write_cell (done ++ zero_value ∷ rest) (length done) v) rest
                  (written done rest zero_value v)
                ∙ loop_moved n own ds (done ++ v ∷ []) rest z
                ∙ outcome_step (take n own) done v (decode_all (decode zero_value) ds))
      ])

  -- In the caller's array.
  loop_own :
      (n : ℕ) (ds : List D) (done rest : List V)
      → Zeroed rest
      → finish n (loop zero_value decode grow ds (length done) (done ++ rest) none)
        ≡ outcome
            (take n (done ++ overwrite (decode_some (decode zero_value) ds) rest))
            (Option.map (λ vs. done ++ vs) (decode_all (decode zero_value) ds))
  unfolding loop finish append_cell own_cells
  loop_own n [] done rest z =
      ap (λ t. outcome (take n (done ++ rest)) (some t))
        (take-length done rest ∙ sym (append-nil done))
  loop_own n (d ∷ ds) done [] z = elim (Bool-cases (decode zero_value d).failed) [
    | inl fails ↦ rw (get_elem?_end done, fails, loop)
    | inr ok ↦
        let v = (decode zero_value d).value in
        rw (get_elem?_end done, ok, loop)
          (next_cell n (some (done ++ [])) ds done v
              (append_cell zero_value decode grow (done ++ []) v)
              (zeros zero_value (grow (length (done ++ [])))) (appended done v)
            ∙ loop_moved n (done ++ []) ds (done ++ v ∷ [])
                (zeros zero_value (grow (length (done ++ [])))) (zeros-Zeroed _)
            ∙ outcome_step (take n (done ++ [])) done v (decode_all (decode zero_value) ds))
  ]
  loop_own n (d ∷ ds) done (c ∷ rest) (e, z) =
      rw (e) (elim (Bool-cases (decode zero_value d).failed) [
        | inl fails ↦ rw (
          get_elem?_mid done rest zero_value,
          fails,
          loop,
          write_cell_lem done rest zero_value (decode zero_value d).value,
        )
        | inr ok ↦
            let v = (decode zero_value d).value in
            rw (get_elem?_mid done rest zero_value, ok, loop)
              (next_cell n none ds done v (write_cell (done ++ zero_value ∷ rest) (length done) v)
                  rest (written done rest zero_value v)
                ∙ loop_own n ds (done ++ v ∷ []) rest z
                ∙ ap
                    (λ t. outcome (take n t) (
                      Option.map (λ vs. (done ++ v ∷ []) ++ vs)
                        (decode_all (decode zero_value) ds)))
                    (append_assoc done (v ∷ [])
                      (overwrite (decode_some (decode zero_value) ds) rest))
                ∙ outcome_step _ done v (decode_all (decode zero_value) ds))
      ])

-- Where the array of the result holds zero values, as a new slice does: if every document can be decoded, iterate
-- replaces the result by the decoded documents in their order, however the array grows. If one cannot,
-- iterate returns an error and the result keeps its length, but what was decoded until then, what
-- Decode left of the failing document included, is written over its first elements, as far as they go.
pub iterate-decode_all {ℓ κ} :
    {V : Type ℓ} {D : Type κ} (zero_value : V) (decode : V → D → Decoding V) (grow : ℕ → ℕ)
    (result spare : List V) (docs : List D)
    → All (λ v. v ≡ zero_value) (result ++ spare)
    → iterate zero_value decode grow result spare docs
      ≡ outcome
          (take
            (length result)
            (overwrite (decode_some (decode zero_value) docs) (result ++ spare)))
          (decode_all (decode zero_value) docs)
unfolding iterate
iterate-decode_all zero_value decode grow result spare docs z =
    loop_own zero_value decode grow (length result) docs [] (result ++ spare) z
    ∙ ap (outcome _) (map_id (decode_all (decode zero_value) docs))
