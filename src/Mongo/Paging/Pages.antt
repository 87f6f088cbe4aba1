-- ===== src/Mongo/Paging/Pages.antt =====
-- Which documents the pages of a query hold.
use go_vkit.Prelude.{
  ℕ, zero, suc, ◌+◌, ◌*◌, ◌≤◌, ◌<◌, ◌≡◌, refl, ap, ◌∙◌, List, [], ◌∷◌, ◌++◌, Option, none, some,
  arith, pos, ok, err, Result, take, drop,
}
use go_vkit.Mongo.Paging.{skip_of, Page, Driver, counted, paged, query_paging}

-- What MongoDB documents of Find for a sort order by a key that no two documents share: the matching documents in
-- that order, which are `docs`, without the first `skip`, and `limit` of them at most, where the limit is not 0.
-- Without a sort order, or where documents share the key, their order may differ from one call to the next.
abbrev pub Finds {ℓ} : {O P D : Type ℓ} → Driver O P D → O → List D → Type ℓ
Finds {O} {P} driver sort docs =
    (p : Page O P) (s : ℕ)
    → p.sort ≡ some sort
    → p.projection ≡ none
    → p.skip ≡ pos s
    → 1 ≤ p.limit
    → driver.find p ≡ ok (ok (take p.limit (drop s docs)))

abbrev pub docs_of {ℓ} : {D : Type ℓ} → Option (List D) → List D
docs_of none = []
docs_of (some docs) = docs

-- The documents of the first pages, one page after the other.
abbrev pub first_pages {ℓ} : {O P D : Type ℓ} → Driver O P D → Option O → (size n : ℕ) → List D
first_pages driver sort size zero = []
first_pages driver sort size (suc n) =
    first_pages driver sort size n
    ++ docs_of (query_paging driver sort (pos (suc n)) (pos size)).docs

take_nil {ℓ} : {A : Type ℓ} (n : ℕ) → ◌≡◌ {A = List A} [] (take n [])
take_nil zero = refl
take_nil (suc n) = refl

take-drop {ℓ} :
    {A : Type ℓ} (a b : ℕ) (xs : List A) → take a xs ++ take b (drop a xs) ≡ take (a + b) xs
take-drop zero b xs = ap (λ n. take n xs) zero_plus
  where
    zero_plus : b ≡ zero + b
    zero_plus = omega arith
take-drop (suc a) zero [] = take_nil (suc a + zero)
take-drop (suc a) (suc b) [] = take_nil (suc a + suc b)
take-drop (suc a) b (x ∷ xs) =
    ap (λ t. x ∷ t) (take-drop a b xs) ∙ ap (λ n. take n (x ∷ xs)) suc_plus
  where
    suc_plus : suc (a + b) ≡ suc a + b
    suc_plus = omega arith

zero_times : (n : ℕ) → zero ≡ zero * n
zero_times n = grind arith

skip_in_range : (n size : ℕ) → n * size < 2147483648 → skip_of (suc n) size ≡ pos (n * size)
unfolding skip_of
skip_in_range n size h = ground arith

paged-docs {ℓ} :
    {O P D : Type ℓ} (driver : Driver O P D) (docs : List D)
    → (paged driver (ok (ok docs))).docs ≡ some docs
unfolding paged counted
paged-docs driver docs = go driver.count
  where
    go : (c : Result ℕ) → (counted driver docs c).docs ≡ some docs
    go (ok n) = refl
    go (err e) = refl

docs-query_paging {ℓ} :
    {O P D : Type ℓ} (driver : Driver O P D) (docs : List D) (sort : O) (n m : ℕ)
    → Finds driver sort docs
    → n * suc m < 2147483648
    → (query_paging driver (some sort) (pos (suc n)) (pos (suc m))).docs
      ≡ some (take (suc m) (drop (n * suc m) docs))
unfolding query_paging
docs-query_paging driver docs sort n m f h =
    rw
      (f
        (record {
          sort = some sort;
          projection = none;
          skip = skip_of (suc n) (suc m);
          limit = suc m;
        })
        (n * suc m) refl refl (skip_in_range n (suc m) h) (omega arith))
      (paged-docs driver _)

-- Where Find does what is documented for a sort order by a unique key and the documents do not change between the
-- calls: the first pages of QueryPaging, one after the other, hold the first documents, each once and in the
-- order of the sort, if a page has room for one document and all of them together for fewer than 2^31.
pub first_pages-take {ℓ} :
    {O P D : Type ℓ} (driver : Driver O P D) (docs : List D) (sort : O) (n size : ℕ)
    → Finds driver sort docs
    → 1 ≤ size
    → n * size < 2147483648
    → first_pages driver (some sort) size n ≡ take (n * size) docs
first_pages-take driver docs sort zero size f p h = ap (λ k. take k docs) (zero_times size)
first_pages-take driver docs sort (suc n) zero f p h = absurd (omega arith)
first_pages-take driver docs sort (suc n) (suc m) f p h =
    rw
      (
        first_pages-take driver docs sort n (suc m) f p (grind arith),
        docs-query_paging driver docs sort n m f (grind arith),
      )
      (take-drop (n * suc m) (suc m) docs ∙ ap (λ k. take k docs) (grind arith))

skip_wraps : (page : ℕ) → skip_of (suc (page + 65536)) 65536 ≡ skip_of (suc page) 65536
unfolding skip_of
skip_wraps page = ground arith

-- The number of documents to skip wraps around in int32: with pages of 65536 documents, a page returns what the page
-- 65536 pages before it returns.
pub query_paging_wraps {ℓ} :
    {O P D : Type ℓ} (driver : Driver O P D) (sort : Option O) (page : ℕ)
    → query_paging driver sort (pos (suc (page + 65536))) (pos 65536)
      ≡ query_paging driver sort (pos (suc page)) (pos 65536)
unfolding query_paging
query_paging_wraps driver sort page =
    ap
      (λ s.
        paged driver
          (driver.find (record { sort = sort; projection = none; skip = s; limit = 65536 })))
      (skip_wraps page)
