-- ===== src/Mongo/Slices/Chosen.antt =====
-- What DeleteById and Insert do to a collection.
use go_vkit.Prelude.{
  ◌≡◌, ◌≢◌, refl, sym, ◌∙◌, ap, ◌↔◌, All, Bool, true, false, ◌||◌, List, [], ◌∷◌, ◌++◌,
  append_assoc, append-nil, arith, if◌then◌else◌, Bool-cases, inl, inr,
}
use go_vkit.Mongo.Slices.{
  Arg, item, slice, append_each, append_args, to_slice, is, among, Deletion, no_deletion,
  delete_one, delete_many, delete_ids, delete_by_id,
}

-- The arguments, with every slice taken apart.
abbrev pub flat {ℓ} : {A : Type ℓ} → List (Arg A) → List A
flat [] = []
flat (item x ∷ args) = x ∷ flat args
flat (slice xs ∷ args) = xs ++ flat args

abbrev pub member {ℓ} : {A : Type ℓ} → (A → A → Bool) → A → List A → Bool
member eq x [] = false
member eq x (y ∷ ys) = eq x y || member eq x ys

-- The documents without those that a test holds of, and without the first of these.
abbrev pub drop_all {ℓ} : {D : Type ℓ} → (D → Bool) → List D → List D
drop_all p [] = []
drop_all p (d ∷ ds) = let rest = drop_all p ds in if p d then rest else d ∷ rest

abbrev pub drop_first {ℓ} : {D : Type ℓ} → (D → Bool) → List D → List D
drop_first p [] = []
drop_first p (d ∷ ds) = let rest = drop_first p ds in if p d then ds else d ∷ rest

module _ {ℓ} {A : Type ℓ} where
  append_each_lem : (s xs : List A) → append_each s xs ≡ s ++ xs
  unfolding append_each
  append_each_lem s [] = sym (append-nil s)
  append_each_lem s (x ∷ xs) = append_each_lem (s ++ (x ∷ [])) xs ∙ append_assoc s (x ∷ []) xs

  append_args_lem : (s : List A) (args : List (Arg A)) → append_args s args ≡ s ++ flat args
  unfolding append_args
  append_args_lem s [] = sym (append-nil s)
  append_args_lem s (item x ∷ args) =
      append_args_lem (s ++ (x ∷ [])) args ∙ append_assoc s (x ∷ []) (flat args)
  append_args_lem s (slice xs ∷ args) =
      append_args_lem (append_each s xs) args
      ∙ ap (λ t. t ++ flat args) (append_each_lem s xs)
      ∙ append_assoc s xs (flat args)

  to_slice-flat : (args : List (Arg A)) → to_slice args ≡ flat args
  unfolding to_slice
  to_slice-flat args = append_args_lem [] args

-- A collection of documents with an `_id` each, of which a driver deletes by a filter on it. The laws are what
-- the documentation says of DeleteOne and DeleteMany.
pub record Collection {ℓ} (A D S : Type ℓ) : Type ℓ where
  pub eq : A → A → Bool
  pub eq_iff : (a b : A) → (eq a b ≡ true) ↔ (a ≡ b)
  pub id : D → A
  pub docs : S → List D
  pub run : Deletion A → S → S
  pub run_none : (s : S) → docs (run no_deletion s) ≡ docs s
  pub run_one :
      (x : A) (s : S) → docs (run (delete_one (is x)) s) ≡ drop_first (λ d. eq (id d) x) (docs s)
  pub run_many :
      (xs : List A) (s : S)
      → docs (run (delete_many (among xs)) s) ≡ drop_all (λ d. member eq (id d) xs) (docs s)

module _ {ℓ} {A D S : Type ℓ} (c : Collection A D S) where
  open c use {eq, eq_iff, id, docs, run, run_none, run_one, run_many}

  -- No two documents have one `_id`.
  abbrev pub Unique : List D → Type ℓ
  Unique [] = Unit
  Unique (d ∷ ds) = All (λ e. id e ≢ id d) ds × Unique ds

  drop_all_none :
      (x : A) (ds : List D) → All (λ e. id e ≢ x) ds → drop_all (λ d. eq (id d) x) ds ≡ ds
  drop_all_none x [] h = refl
  drop_all_none x (d ∷ ds) (n, h) = elim (Bool-cases (eq (id d) x)) [
    | inl e ↦ absurd (n ((eq_iff (id d) x).0 e))
    | inr e ↦ rw (e) (ap (λ t. d ∷ t) (drop_all_none x ds h))
  ]

  drop_first-drop_all :
      (x : A) (ds : List D)
      → Unique ds
      → drop_first (λ d. eq (id d) x) ds ≡ drop_all (λ d. eq (id d) x) ds
  drop_first-drop_all x [] u = refl
  drop_first-drop_all x (d ∷ ds) (n, u) = elim (Bool-cases (eq (id d) x)) [
    | inl e ↦ rw (e) (sym (drop_all_none x ds (rw (← (eq_iff (id d) x).0 e) n)))
    | inr e ↦ rw (e) (ap (λ t. d ∷ t) (drop_first-drop_all x ds u))
  ]

  drop_all_cong :
      (p q : D → Bool) (ds : List D) → ((d : D) → p d ≡ q d) → drop_all p ds ≡ drop_all q ds
  drop_all_cong p q [] h = refl
  drop_all_cong p q (d ∷ ds) h = rw (h d, drop_all_cong p q ds h)

  drop_all-false : (ds : List D) → drop_all (λ d. false) ds ≡ ds
  drop_all-false [] = refl
  drop_all-false (d ∷ ds) = ap (λ t. d ∷ t) (drop_all-false ds)

  delete_ids-drop_all :
      (ids : List A) (s : S)
      → Unique (docs s)
      → docs (run (delete_ids ids) s) ≡ drop_all (λ d. member eq (id d) ids) (docs s)
  unfolding delete_ids
  delete_ids-drop_all [] s u = run_none s ∙ sym (drop_all-false (docs s))
  delete_ids-drop_all (x ∷ []) s u =
      run_one x s
      ∙ drop_first-drop_all x (docs s) u
      ∙ drop_all_cong (λ d. eq (id d) x) (λ d. member eq (id d) (x ∷ [])) (docs s)
          (λ d. ground arith)
  delete_ids-drop_all (x ∷ y ∷ ids) s u = run_many (x ∷ y ∷ ids) s

-- Where the driver deletes as it documents and no two documents of the collection have one `_id`: DeleteById takes
-- every document out whose `_id` is among the arguments, those in slices included, and no other, whichever
-- request it chooses.
pub delete_by_id-drop_all {ℓ} :
    {A D S : Type ℓ} (c : Collection A D S) (args : List (Arg A)) (s : S)
    → Unique c (c.docs s)
    → c.docs (c.run (delete_by_id args) s)
      ≡ drop_all (λ d. member c.eq (c.id d) (flat args)) (c.docs s)
unfolding delete_by_id
delete_by_id-drop_all c args s u = rw (to_slice-flat args) (delete_ids-drop_all c (flat args) s u)
