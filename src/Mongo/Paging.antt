-- ===== src/Mongo/Paging.antt =====
-- The queries of mongox/mongox.go by pages: QueryPaging, PagingQuery and PagingQueryWithPro. The arithmetic is that of int32.
pub mod Pages
use go_vkit.Prelude.{
  ℕ, zero, suc, ◌-◌, ◌*◌, ◌++◌, Bool, true, false, List, [], ◌∷◌, Option, none, some, codes, Bytes,
  if◌then◌else◌, ℤ, pos, negsuc, int32, drop, Result, ok, err,
}
use go_vkit.Strings.{index}
use go_vkit.Strings.Decimal.{format_int}

-- `if n < 1 { n = default }`
pub at_least_one : ℕ → ℤ → ℕ
at_least_one default (pos zero) = default
at_least_one default (pos (suc n)) = suc n
at_least_one default (negsuc n) = default

-- `(page - 1) * size`, for a page and a size from 1 on.
pub skip_of : ℕ → ℕ → ℤ
skip_of page size = int32 (pos ((page - 1) * size))

-- What a query asks for: a sort order, if there is one, a projection, if there is one, and the page.
pub record Page {ℓ} (O P : Type ℓ) : Type ℓ where
  pub sort : Option O
  pub projection : Option P
  pub skip : ℤ
  pub limit : ℕ

-- The result of a paged query: the documents that `pResult` has in the end, if the cursor was read, and the
-- count with its error.
pub record Paged {ℓ} (D : Type ℓ) : Type ℓ where
  pub docs : Option (List D)
  pub total : ℕ
  pub error : Option Bytes

-- The driver: Find with the cursor's All, of which the first answer is Find's, and CountDocuments.
pub record Driver {ℓ} (O P D : Type ℓ) : Type ℓ where
  pub find : Page O P → Result (Result (List D))
  pub count : Result ℕ

module _ {ℓ} {O P D : Type ℓ} (driver : Driver O P D) where
  counted : List D → Result ℕ → Paged D
  counted docs (err e) = record { docs = some docs; total = 0; error = some e }
  counted docs (ok n) = record { docs = some docs; total = n; error = none }

  paged : Result (Result (List D)) → Paged D
  unfolding counted
  paged (err e) = record { docs = none; total = 0; error = some e }
  paged (ok (err e)) = record { docs = none; total = 0; error = some e }
  paged (ok (ok docs)) = counted docs driver.count

  pub query_paging : Option O → (page_index page_size : ℤ) → Paged D
  unfolding paged at_least_one skip_of
  query_paging sort page_index page_size =
      let page = at_least_one 1 page_index in
      let size = at_least_one 10 page_size in
      paged (
        driver.find
          (record { sort = sort; projection = none; skip = skip_of page size; limit = size }))

  -- `sort` is the function of Mongo.Sort, of which a panic is one of the query.
  sort_by {κ} : {F : Type κ} → (List F → Option O) → List F → Option (Option O)
  sort_by sort [] = some none
  sort_by sort (f ∷ fs) = elim (sort (f ∷ fs)) [ none ↦ none | some o ↦ some (some o) ]

  with_sort : Option P → ℕ → ℕ → Option (Option O) → Option (Paged D)
  unfolding paged skip_of
  with_sort projection page size none = none
  with_sort projection page size (some o) = some (
      paged (
        driver.find
          (record { sort = o; projection = projection; skip = skip_of page size; limit = size })))

  paging_query_with_pro {κ} :
      {F : Type κ}
      → (List F → Option O)
      → List F
      → (page_index page_size : ℤ) → Option P
      → Option (Paged D)
  unfolding with_sort sort_by at_least_one
  paging_query_with_pro sort fields page_index page_size projection =
      with_sort projection (at_least_one 1 page_index) (at_least_one 1 page_size)
        (sort_by sort fields)

  paging_query {κ} :
      {F : Type κ} → (List F → Option O) → List F → (page_index page_size : ℤ) → Option (Paged D)
  unfolding with_sort sort_by at_least_one
  paging_query sort fields page_index page_size =
      with_sort none (at_least_one 1 page_index) (at_least_one 1 page_size) (sort_by sort fields)
