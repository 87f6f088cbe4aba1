-- ===== src/Gate/Request.antt =====
-- gate/function.go requestPayload and gate/httprequest.go. What net/http has read of a request is in the
-- record `Body`; `json_map` is encoding/json on a map of strings.
pub mod Reads
use go_vkit.Prelude.{
  ℕ, ◌++◌, Bool, true, false, List, [], ◌∷◌, Option, none, some, codes, Bytes, GoMap, insert,
  if◌then◌else◌,
}
use go_vkit.Strings.{contains, join}

-- grpcx.FileInfo
pub record FileInfo : Type 0 where
  pub filename : Bytes
  pub size : ℕ
  pub content : Bytes

pub data FileRead : Type 0 where
  file : FileInfo → FileRead
  unreadable : Bytes → FileRead

-- `all` is what ReadAll returns, with its error; `multipart_error` the error of ParseMultipartForm.
pub record Body : Type 0 where
  pub content_type : Bytes
  pub all : Bytes
  pub all_error : Option Bytes
  pub close_fails : Bool
  pub form : GoMap (List Bytes)
  pub multipart_error : Option Bytes
  pub values : GoMap (List Bytes)
  pub files : GoMap FileRead

pub record Payload : Type 0 where
  pub bytes : Bytes
  pub files : Option (GoMap FileInfo)
  pub error : Option Bytes

abbrev pub refused : Bytes → Payload
refused e = record { bytes = []; files = none; error = some e }

-- `vals[k] = strings.Join(v, ",")`
join_form : GoMap (List Bytes) → GoMap Bytes → GoMap Bytes
join_form [] vals = vals
join_form ((k, v) ∷ form) vals = join_form form (insert k (join v (codes ",")) vals)

-- The loop over the files, which ends at the first that cannot be read.
pub data Files : Type 0 where
  ok : GoMap FileInfo → Files
  bad : Bytes → Files

read_files : GoMap FileRead → GoMap FileInfo → Files
read_files [] files = ok files
read_files ((k, file f) ∷ rest) files = read_files rest (insert k f files)
read_files ((k, unreadable e) ∷ rest) files = bad e

-- The map of files is nil where the form has none.
some_files : GoMap FileRead → GoMap FileInfo → Option (GoMap FileInfo)
some_files [] files = none
some_files (f ∷ fs) files = some files

module _ (json_map : GoMap Bytes → Bytes) where
  with_files : Body → Files → Payload
  unfolding some_files join_form
  with_files b (bad e) = refused e
  with_files b (ok files) = record {
    bytes = json_map (join_form b.values []);
    files = some_files b.files files;
    error = none;
  }

  multipart : Body → Option Bytes → Payload
  unfolding with_files read_files
  multipart b (some e) = refused e
  multipart b none = with_files b (read_files b.files [])

  unfoldable pub request_payload : Body → Payload
  unfolding join_form multipart
  request_payload b =
      if contains b.content_type (codes "application/json")
      then record {
        bytes = b.all;
        files = none;
        error =
            if b.close_fails then some (codes "[httphandler] body close failed") else b.all_error;
      }
      else if contains b.content_type (codes "application/x-www-form-urlencoded")
      then record { bytes = json_map (join_form b.form []); files = none; error = none }
      else if contains b.content_type (codes "multipart/form-data")
      then multipart b b.multipart_error
      else refused (codes "[httphandler] not support contentType:" ++ b.content_type)

-- HttpRequest; `request` is the underlying `r`.
pub record HttpRequest : Type 0 where
  pub uri : Bytes
  pub request : Body
  pub service : Bytes
  pub method : Bytes
  pub content_type : Bytes
  pub body : Bytes
  pub has_read : Bool
  pub file_map : Option (GoMap FileInfo)

unfoldable pub keep : HttpRequest → Payload → Option Bytes → Payload × HttpRequest
keep r p (some e) = (p, r)
keep r p none = (p, record r { file_map = p.files; has_read = true; body = p.bytes })

module _ (json_map : GoMap Bytes → Bytes) where
  unfoldable pub read : HttpRequest → Payload × HttpRequest
  unfolding keep
  read r =
      let p = request_payload json_map r.request in
      if r.has_read
      then (record { bytes = r.body; files = r.file_map; error = none }, r)
      else keep r p p.error

unfoldable pub set_body : HttpRequest → Bytes → HttpRequest
set_body r b = record r { has_read = true; body = b }

-- The accessor Endpoint returns the HTTP method.
unfoldable pub endpoint : HttpRequest → Bytes
endpoint r = r.method
