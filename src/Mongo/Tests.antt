-- ===== src/Mongo/Tests.antt =====
-- Runs of the client's functions at concrete inputs.
use go_vkit.Prelude.{
  ℕ, ==_iff, zero, suc, ◌≡◌, ◌≢◌, refl, true, false, List, [], ◌∷◌, some, arith, codes, Bytes, ◌==◌,
  Result, ok, err, ℤ, pos, negsuc, lookup, take, drop, map,
}
use go_vkit.Strings.{has_prefix, to_lower}
use go_vkit.Mongo.Sort.{sort}
use go_vkit.Mongo.Sort.Printed.{Key, down, plain, score, print, meant, sort-print}
use go_vkit.Mongo.Slices.{
  item, slice, is, among, Deletion, no_deletion, delete_one, delete_many, delete_by_id,
}
use go_vkit.Mongo.Slices.Chosen.{Collection, member, drop_all, drop_first, delete_by_id-drop_all}
use go_vkit.Mongo.Fields.{Field, struct, field_name, remove_from, remove_all, struct_to_bson_m}
use go_vkit.Mongo.Fields.Written.{first, later, struct_to_bson_m-Member}
use go_vkit.Mongo.Cursor.{Decoding, iterate}
use go_vkit.Mongo.Cursor.Decoded.{iterate-decode_all}
use go_vkit.Mongo.Paging.{Page, Driver}
use go_vkit.Mongo.Paging.Pages.{first_pages, first_pages-take}

abbrev keys : List Key
keys = down (codes "age") ∷ plain (codes "name") ∷ score (codes "title") ∷ []

sort-print_example : sort (map print keys) ≡ some (map meant keys)
sort-print_example =
    sort-print keys (
      ground arith,
      ((ground arith, ground arith, ground arith), ((ground arith, ground arith), tt)),
    )

-- A collection of documents that are their identities, in a driver that does what it promises.
abbrev run_list : Deletion ℕ → List ℕ → List ℕ
run_list no_deletion s = s
run_list (delete_one (is x)) s = drop_first (λ d. d == x) s
run_list (delete_one (among xs)) s = s
run_list (delete_many (is x)) s = s
run_list (delete_many (among xs)) s = drop_all (λ d. member (λ a b. a == b) d xs) s

abbrev ids : Collection ℕ ℕ (List ℕ)
ids = record {
  eq = λ a b. a == b;
  eq_iff = ==_iff;
  id = λ d. d;
  docs = λ s. s;
  run = run_list;
  run_none = λ s. refl;
  run_one = λ x s. refl;
  run_many = λ xs s. refl;
}

delete_by_id-drop_all_example :
    run_list (delete_by_id (item 3 ∷ slice (5 ∷ 9 ∷ []) ∷ [])) (3 ∷ 4 ∷ 5 ∷ [])
    ≡ drop_all (λ d. member (λ a b. a == b) d (3 ∷ 5 ∷ 9 ∷ [])) (3 ∷ 4 ∷ 5 ∷ [])
delete_by_id-drop_all_example =
    delete_by_id-drop_all ids (item 3 ∷ slice (5 ∷ 9 ∷ []) ∷ []) (3 ∷ 4 ∷ 5 ∷ [])
      ((ground arith, (ground arith, tt)), ((ground arith, tt), (tt, tt)))

-- type user struct { ID string `bson:"_id"`; Age string }
abbrev id_field : Field Bytes
id_field = record {
  exported = true;
  tag = codes "_id,omitempty";
  name = codes "ID";
  value = codes "u1";
}

abbrev age_field : Field Bytes
age_field = record { exported = true; tag = []; name = codes "Age"; value = codes "7" }

names_differ : field_name age_field ≢ field_name id_field
unfolding field_name remove_all remove_from has_prefix to_lower
names_differ = ground arith

struct_to_bson_m-Member_example :
    (m : List (Bytes × Bytes)) × (struct_to_bson_m
        (struct (id_field ∷ age_field ∷ []))
        (codes "age" ∷ [])
      ≡ some m)
    × (lookup (field_name age_field) m ≡ some (codes "7"))
struct_to_bson_m-Member_example =
    struct_to_bson_m-Member (id_field ∷ age_field ∷ []) (codes "age" ∷ []) age_field
      ((names_differ, tt), (tt, tt)) (refl, (refl, tt)) (later first)

-- A driver that decodes a number and fails at 0.
abbrev decode_number : ℕ → ℕ → Decoding ℕ
decode_number old zero = record { value = old; failed = true }
decode_number old (suc n) = record { value = suc n; failed = false }

-- The second document fails, and the first stays in the result.
iterate-decode_all_example :
    iterate 0 decode_number (λ n. n) (0 ∷ 0 ∷ []) (0 ∷ []) (4 ∷ 0 ∷ 2 ∷ [])
    ≡ record { result = 4 ∷ 0 ∷ []; failed = true }
iterate-decode_all_example =
    iterate-decode_all 0 decode_number (λ n. n) (0 ∷ 0 ∷ []) (0 ∷ []) (4 ∷ 0 ∷ 2 ∷ [])
      (refl, (refl, (refl, tt)))

abbrev found : List ℕ → ℕ → ℤ → Result (Result (List ℕ))
found ds n (pos s) = ok (ok (take n (drop s ds)))
found ds n (negsuc s) = err (codes "a skip must not be negative")

abbrev find_list : List ℕ → Page Bytes Bytes → Result (Result (List ℕ))
find_list ds p = found ds p.limit p.skip

abbrev three : Driver Bytes Bytes ℕ
three = record { find = find_list (1 ∷ 2 ∷ 3 ∷ []); count = ok 3 }

-- Sorted by a number that each document has for itself.
first_pages-take_example : first_pages three (some (codes "number")) 2 2 ≡ take 4 (1 ∷ 2 ∷ 3 ∷ [])
first_pages-take_example =
    first_pages-take three (1 ∷ 2 ∷ 3 ∷ []) (codes "number") 2 2 (λ p s o q e l. rw (e))
      (omega arith) (omega arith)
