-- ===== src/Gate/Response.antt =====
-- gate/httpresponse.go. The handlers of the gate make a response with a nil header; the answer of the
-- http.ResponseWriter to a write is an argument.
use go_vkit.Prelude.{
  Bool, true, false, List, [], ◌∷◌, ◌++◌, Option, none, some, codes, Bytes, GoMap, insert,
}
use go_vkit.Server.Handler.{Outcome, returned, panicked}

-- `sent` is what was written to the writer; `none` for a nil header.
pub record HttpResponse : Type 0 where
  pub sent : List Bytes
  pub header : Option (GoMap Bytes)
  pub has_write : Bool
  pub content : Bytes

pub new_response : HttpResponse
new_response = record { sent = []; header = none; has_write = false; content = [] }

merge_header : GoMap Bytes → GoMap Bytes → GoMap Bytes
merge_header [] header = header
merge_header ((k, v) ∷ hdr) header = merge_header hdr (insert k v header)

-- An assignment to an entry of a nil map panics; a loop over no entries makes none.
pub write_header : GoMap Bytes → HttpResponse → Outcome HttpResponse
unfolding merge_header
write_header hdr r = elim r.header [
  | some header ↦ returned (record r { header = some (merge_header hdr header) })
  | none ↦ elim hdr [ [] ↦ returned r | e ∷ es ↦ panicked (codes "assignment to entry in nil map") ]
]

-- With the error of the writer, by its text.
pub write_response : (fails : Option Bytes) → Bytes → HttpResponse → Option Bytes × HttpResponse
write_response none b r = (none, record r { sent = r.sent ++ (b ∷ []); has_write = true })
write_response (some e) b r = (some e, record r { has_write = true })
