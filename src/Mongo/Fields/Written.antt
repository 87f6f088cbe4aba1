-- ===== src/Mongo/Fields/Written.antt =====
-- Which fields an update writes.
use go_vkit.Prelude.{
  ◌≡◌, ◌≢◌, refl, true, List, [], ◌∷◌, ◌++◌, some, arith, Bytes, bytes_eq, bytes_eq_iff, GoMap,
  lookup, insert, lookup-insert, All, Bool-cases, inl, inr,
}
use go_vkit.Mongo.Fields.{
  Field, struct, field_name, always_ignored, skip_ignored, fill, struct_to_bson_m,
}

pub data Member {ℓ} {V : Type ℓ} (f : Field V) : List (Field V) → Type ℓ where
  first : {fs : List (Field V)} → Member f (f ∷ fs)
  later : {g : Field V} {fs : List (Field V)} → Member f fs → Member f (g ∷ fs)

module _ {ℓ} {V : Type ℓ} where
  -- No two fields have one name.
  abbrev pub Named : List (Field V) → Type ℓ
  Named [] = Unit
  Named (f ∷ fs) = All (λ g. field_name g ≢ field_name f) fs × Named fs

  skip_ignored_lem :
      (ignore : List Bytes) (name : Bytes) (m : GoMap V) → skip_ignored ignore name m ≡ m
  unfolding skip_ignored
  skip_ignored_lem [] name m = refl
  skip_ignored_lem (v ∷ vs) name m = elim (Bool-cases (bytes_eq v name)) [
    | inl e ↦ rw (e) (skip_ignored_lem vs name m)
    | inr e ↦ rw (e) (skip_ignored_lem vs name m)
  ]

  -- One entry for each field, whatever is to be ignored.
  entries : List (Field V) → GoMap V → GoMap V
  entries [] m = m
  entries (f ∷ fs) m = entries fs (insert (field_name f) f.value m)

  fill-entries :
      (ignore : List Bytes) (fs : List (Field V)) (m : GoMap V)
      → All (λ g. g.exported ≡ true) fs
      → fill ignore fs m ≡ some (entries fs m)
  unfolding fill entries
  fill-entries ignore [] m x = refl
  fill-entries ignore (f ∷ fs) m (e, x) =
      rw (e, skip_ignored_lem ignore (field_name f) m)
        (fill-entries ignore fs (insert (field_name f) f.value m) x)

  entries_keep :
      (fs : List (Field V)) (m : GoMap V) (k : Bytes) (v : V)
      → All (λ g. field_name g ≢ k) fs
      → lookup k m ≡ some v
      → lookup k (entries fs m) ≡ some v
  unfolding entries
  entries_keep [] m k v a h = h
  entries_keep (f ∷ fs) m k v (n, a) h = entries_keep fs (insert (field_name f) f.value m) k v a (
      ground (arith, lookup-insert (field_name f) k f.value m, bytes_eq_iff (field_name f) k, n, h))

  entries-Member :
      (fs : List (Field V)) (m : GoMap V) (f : Field V)
      → Named fs
      → Member f fs
      → lookup (field_name f) (entries fs m) ≡ some f.value
  unfolding entries
  entries-Member [] m f u h = elim h [ ]
  entries-Member (g ∷ fs) m f (n, u) first = entries_keep fs _ (field_name g) g.value n (
      ground (
        arith,
        lookup-insert (field_name g) (field_name g) g.value m,
        bytes_eq_iff (field_name g) (field_name g),
      ))
  entries-Member (g ∷ fs) m f (n, u) (later h) = entries-Member fs _ f u h

-- No field is ignored: whatever names are to be ignored, _id and created_at among them, an update with a struct
-- whose fields are all exported and have distinct names writes every field with its value.
pub struct_to_bson_m-Member {ℓ} :
    {V : Type ℓ} (fs : List (Field V)) (ignore : List Bytes) (f : Field V)
    → Named fs
    → All (λ g. g.exported ≡ true) fs
    → Member f fs
    → (m : GoMap V) × (struct_to_bson_m (struct fs) ignore ≡ some m)
      × (lookup (field_name f) m ≡ some f.value)
unfolding struct_to_bson_m
struct_to_bson_m-Member fs ignore f u x h =
    (_, fill-entries (ignore ++ always_ignored) fs [] x, entries-Member fs [] f u h)
