-- ===== src/Gate/Request/Reads.antt =====
-- The body of a request is read once.
use go_vkit.Prelude.{◌≡◌, refl, false, none, arith, Bytes, GoMap}
use go_vkit.Gate.Request.{HttpRequest, Body, request_payload, keep, read, set_body}

-- After a read without error, a second read returns the same payload and changes nothing, even if the
-- underlying request holds another body by then.
pub read_again :
    (json_map : GoMap Bytes → Bytes) (r : HttpRequest) (later : Body)
    → (read json_map r).0.error ≡ none
    → let (p, r') = read json_map r in
      let moved : HttpRequest = record r' { request = later } in read json_map moved ≡ (p, moved)
unfolding read keep
read_again json_map r later e = ground arith

-- A body that an interceptor sets is what the next read returns, with the files read so far.
pub read-set_body :
    (json_map : GoMap Bytes → Bytes) (r : HttpRequest) (b : Bytes)
    → (read json_map (set_body r b)).0 ≡ record { bytes = b; files = r.file_map; error = none }
unfolding read set_body
read-set_body json_map r b = refl

-- The first Read takes the payload of the body, and leaves the URL.
pub read-fresh :
    (json_map : GoMap Bytes → Bytes) (r : HttpRequest)
    → r.has_read ≡ false
    → ((read json_map r).0 ≡ request_payload json_map r.request) × ((read json_map r).1.uri ≡ r.uri)
unfolding read keep
read-fresh json_map r unread = (ground arith, ground arith)
