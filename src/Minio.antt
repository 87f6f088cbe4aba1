-- ===== src/Minio.antt =====
-- miniox/miniox.go over the library's client: `S` is the state of the server.
pub mod Urls
mod Tests
use go_vkit.Prelude.{
  ℕ, Bool, true, false, ◌&&◌, not, List, [], ◌∷◌, ◌++◌, Option, none, some, codes, Bytes, ◌==◌,
  if◌then◌else◌, Result, ok, err, drop,
}
use go_vkit.Strings.{split, join, contains, has_prefix}

pub record MinioClient : Type 0 where
  pub do_main : Bytes
  pub end_point : Bytes
  pub access_key : Bytes
  pub access_secret : Bytes
  pub bucket_name : Bytes

-- The calls of the library's client; an error is its text. `connect` is minio.New, with the Boolean for Secure.
pub record Calls {ℓ} (S : Type ℓ) : Type ℓ where
  pub connect : (end_point access_key access_secret : Bytes) (secure : Bool) → S → Option Bytes
  pub bucket_exists : (bucket : Bytes) → S → Result Bool
  pub make_bucket : (bucket : Bytes) → S → S × Option Bytes
  pub f_put_object : (bucket object file content_type : Bytes) → S → S × Option Bytes
  pub put_object : (bucket object stream content_type : Bytes) → S → S × Option Bytes
  pub remove_object : (bucket object : Bytes) → S → S × Option Bytes
  pub presigned_put_object : (bucket object : Bytes) (minutes : ℕ) → S → Result Bytes

-- path.Ext: from the last dot behind the last slash on.
ext_of : Bytes → Option Bytes
unfolding contains
ext_of [] = none
ext_of (c ∷ s) = elim (ext_of s) [
  | some e ↦ some e
  | none ↦ if c == b'.' && not (contains s (codes "/")) then some (c ∷ s) else none
]

file_suffix : Option Bytes → Bytes
file_suffix none = codes ".noSuffix"
file_suffix (some e) = e

pub content_type_of : Bytes → Bytes
unfolding file_suffix ext_of
content_type_of file = codes "application/" ++ drop 1 (file_suffix (ext_of file))

-- `the.DoMain + "/" + the.BucketName + "/" + object`
pub object_url : MinioClient → Bytes → Bytes
object_url the object = the.do_main ++ (b'/' ∷ (the.bucket_name ++ (b'/' ∷ object)))

module _ {ℓ} {S : Type ℓ} (calls : Calls S) (the : MinioClient) where
  -- NewClient: the bucket is made unless the server says that it exists.
  made : Result Bool → S → S × Option Bytes
  made (ok true) s = (s, none)
  made (ok false) s = calls.make_bucket the.bucket_name s
  made (err e) s = calls.make_bucket the.bucket_name s

  pub open_client : S → S × Option Bytes
  unfolding made
  open_client s =
      elim (calls.connect the.end_point the.access_key the.access_secret
        (has_prefix the.do_main (codes "https")) s) [
          | some e ↦ (s, some e)
          | none ↦ made (calls.bucket_exists the.bucket_name s) s
        ]

  pub url_if : Bytes → S × Option Bytes → S × Result Bytes
  unfolding object_url
  url_if object (s, some e) = (s, err e)
  url_if object (s, none) = (s, ok (object_url the object))

  pub upload_local_file : (file object : Bytes) → S → S × Result Bytes
  unfolding url_if content_type_of
  upload_local_file file object s =
      url_if object (calls.f_put_object the.bucket_name object file (content_type_of file) s)

  -- `detect` is http.DetectContentType.
  upload_stream_file : (detect : Bytes → Bytes) (stream object : Bytes) → S → S × Result Bytes
  unfolding url_if
  upload_stream_file detect stream object s =
      url_if object (calls.put_object the.bucket_name object stream (detect stream) s)

  pub delete_file : (object : Bytes) → S → S × Option Bytes
  delete_file object = calls.remove_object the.bucket_name object

  -- The parts of the path; the first is what stands before its slash.
  delete_parts : Bytes → List Bytes → S → S × Option Bytes
  delete_parts file_url (p ∷ bucket ∷ part ∷ parts) s =
      calls.remove_object bucket (join (part ∷ parts) (codes "/")) s
  delete_parts file_url (p ∷ bucket ∷ []) s =
      (s, some (codes "url" ++ (file_url ++ codes " is invalid")))
  delete_parts file_url (p ∷ []) s = (s, some (codes "url" ++ (file_url ++ codes " is invalid")))
  delete_parts file_url [] s = (s, some (codes "url" ++ (file_url ++ codes " is invalid")))

  -- `parse` is url.Parse, of which the code reads the path.
  pub delete_file_by_url : (parse : Bytes → Result Bytes) (file_url : Bytes) → S → S × Option Bytes
  unfolding delete_parts
  delete_file_by_url parse file_url s = elim (parse file_url) [
    | err e ↦ (s, some e)
    | ok path ↦ delete_parts file_url (split path b'/') s
  ]

  pub presigned_url : (bucket object : Bytes) → S → Result Bytes
  presigned_url bucket object = calls.presigned_put_object bucket object 5
