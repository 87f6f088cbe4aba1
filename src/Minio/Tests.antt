-- ===== src/Minio/Tests.antt =====
-- A run of the client at a concrete server.
use go_vkit.Prelude.{
  ◌≡◌, refl, true, List, [], ◌∷◌, none, arith, codes, Bytes, Result, ok, err, drop,
}
use go_vkit.Minio.{MinioClient, Calls, object_url, url_if, upload_local_file, delete_file_by_url}
use go_vkit.Minio.Urls.{delete_file_by_url-upload_local_file}

-- A server that notes what was removed.
abbrev server : Calls (List (Bytes × Bytes))
server = record {
  connect = λ a k p t s. none;
  bucket_exists = λ b s. ok true;
  make_bucket = λ b s. (s, none);
  f_put_object = λ b o f c s. (s, none);
  put_object = λ b o f c s. (s, none);
  remove_object = λ b o s. ((b, o) ∷ s, none);
  presigned_put_object = λ b o m s. err (codes "no");
}

abbrev client : MinioClient
client = record {
  do_main = codes "http://h";
  end_point = codes "h";
  access_key = [];
  access_secret = [];
  bucket_name = codes "b";
}

abbrev url : Bytes
url = codes "http://h/b/d/x.txt"

uploaded : upload_local_file server client (codes "/tmp/x.txt") (codes "d/x.txt") [] ≡ ([], ok url)
unfolding upload_local_file url_if object_url
uploaded = refl

-- The path of a URL whose scheme and host have eight bytes.
abbrev parse : Bytes → Result Bytes
parse u = ok (drop 8 u)

delete_file_by_url-upload_local_file_example :
    delete_file_by_url server client parse url [] ≡ ((codes "b", codes "d/x.txt") ∷ [], none)
unfolding object_url
delete_file_by_url-upload_local_file_example =
    delete_file_by_url-upload_local_file server client parse (codes "/tmp/x.txt") (codes "d/x.txt")
      url [] [] [] (ground arith, tt) refl uploaded
