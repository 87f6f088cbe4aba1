-- ===== src/Minio/Urls.antt =====
-- The URL of a file names its bucket and its object.
use go_vkit.Prelude.{
  ℕ, ◌≡◌, refl, sym, ap, ◌∙◌, List, [], ◌∷◌, ◌++◌, Option, none, some, arith, codes, Bytes, Result,
  ok, Bool-cases, inl, inr, ◌==◌,
}
use go_vkit.Strings.{split, join, cons_head}
use go_vkit.Strings.Laws.{Lacks, split-append, split_some}
use go_vkit.Minio.{
  MinioClient, Calls, object_url, url_if, content_type_of, upload_local_file, delete_parts,
  delete_file_by_url,
}

join-cons_head :
    (c : ℕ) (p : Bytes) (ps : List Bytes) (sep : Bytes)
    → join ((c ∷ p) ∷ ps) sep ≡ c ∷ join (p ∷ ps) sep
unfolding join
join-cons_head c p [] sep = refl
join-cons_head c p (q ∷ ps) sep = refl

-- Join puts together what Split took apart.
join-split : (s : Bytes) (sep : ℕ) → join (split s sep) (sep ∷ []) ≡ s
unfolding split cons_head join
join-split [] sep = refl
join-split (c ∷ s) sep =
    let (p, ps, e) = split_some s sep in
    elim (Bool-cases (c == sep)) [
      | inl h ↦ ground (arith, e, join-split s sep)
      | inr h ↦ ground (arith, e, join-split s sep, join-cons_head c p ps (sep ∷ []))
    ]

module _ {ℓ} {S : Type ℓ} (calls : Calls S) (the : MinioClient) where
  url_if-ok :
      (object u : Bytes) (r : S × Option Bytes) (t : S)
      → url_if calls the object r ≡ (t, ok u)
      → u ≡ object_url the object
  unfolding url_if
  url_if-ok object u (s, none) t h = let e = ap (λ r. r.1) h in cc
  url_if-ok object u (s, some e) t h = let d = ap (λ r. r.1) h in cc

  delete_parts-split :
      (file_url bucket object : Bytes) (s : S)
      → Lacks b'/' bucket
      → delete_parts calls the file_url (split (b'/' ∷ (bucket ++ (b'/' ∷ object))) b'/') s
        ≡ calls.remove_object bucket object s
  unfolding split delete_parts
  delete_parts-split file_url bucket object s l =
      let (p, ps, e) = split_some object b'/' in
      rw (split-append bucket object b'/' l, e, split, delete_parts)
        (ap (λ o. calls.remove_object bucket o s)
          (ap (λ ls. join ls (codes "/")) (sym e) ∙ join-split object b'/'))

-- The URL that UploadLocalFile returned deletes that file: where the bucket's name has no slash and the path of the
-- URL is what stands behind the domain, DeleteFileByUrl asks the server to remove the object from the bucket.
pub delete_file_by_url-upload_local_file {ℓ} :
    {S : Type ℓ} (calls : Calls S) (the : MinioClient) (parse : Bytes → Result Bytes)
    (file object u : Bytes) (s t v : S)
    → Lacks b'/' the.bucket_name
    → parse (object_url the object) ≡ ok (b'/' ∷ (the.bucket_name ++ (b'/' ∷ object)))
    → upload_local_file calls the file object s ≡ (t, ok u)
    → delete_file_by_url calls the parse u v ≡ calls.remove_object the.bucket_name object v
unfolding delete_file_by_url upload_local_file
delete_file_by_url-upload_local_file calls the parse file object u s t v l p h =
    rw
      (
        url_if-ok calls the object u
            (calls.f_put_object the.bucket_name object file (content_type_of file) s) t h,
        p,
        delete_file_by_url,
      )
      (delete_parts-split calls the u the.bucket_name object v l)
