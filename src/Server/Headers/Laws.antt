-- ===== src/Server/Headers/Laws.antt =====
-- What the headers of a call become.
use go_vkit.Prelude.{
  ℕ, ◌<◌, ◌≡◌, refl, ◌∙◌, false, List, [], ◌∷◌, Option, none, some, arith, codes, Bytes, bytes_eq,
  GoMap, Distinct, bytes_eq_iff, lookup, insert, erase, lookup-insert, lookup-erase, pos,
}
use go_vkit.Strings.{join}
use go_vkit.Strings.Decimal.{format_uint, parse_uint-format_uint, format_uint-ne-nil}
use go_vkit.Metadata.{Metadata}
use go_vkit.Routes.{is_empty}
use go_vkit.Server.Headers.{
  content_type, x_content_type, timeout_key, get_or, with_remote, join_values, reply_type,
  time_limit_of, time_limit, read_headers, exchange_type,
}

-- A time limit that the client sends as a number of nanoseconds below 2^63 is the server's limit.
pub time_limit-format_uint :
    (d : ℕ) → d < 9223372036854775808 → time_limit (format_uint d) ≡ some (pos d)
unfolding time_limit time_limit_of
time_limit-format_uint d h = ground (
  arith,
  parse_uint-format_uint d (omega arith),
  not_empty (format_uint d) (format_uint-ne-nil d),
)
  where
    not_empty : (s : Bytes) → (s ≡ [] → ⊥) → is_empty s ≡ false
    not_empty [] h = absurd (h refl)
    not_empty (c ∷ s) h = refl

lookup-with_remote :
    (remote : Option Bytes) (md : Metadata) (k : Bytes)
    → bytes_eq (codes "Remote") k ≡ false
    → lookup k (with_remote remote md) ≡ lookup k md
unfolding with_remote
lookup-with_remote none md k h = refl
lookup-with_remote (some addr) md k h = rw (lookup-insert (codes "Remote") k addr md, h)

-- The metadata that a handler sees hold the content type of the reply and neither the time limit nor
-- the content type of the exchange, whatever the call brought along.
pub read_headers_hides :
    (incoming : Option (GoMap (List Bytes))) (remote : Option Bytes)
    → let h = read_headers incoming remote in
      (lookup content_type h.md ≡ some h.ct)
      × (lookup timeout_key h.md ≡ none)
      × (lookup x_content_type h.md ≡ none)
unfolding read_headers bytes_eq
read_headers_hides incoming remote =
    let md = join_values (get_or incoming []) [] in
    let typed = insert content_type (reply_type md) md in
    let timed = erase timeout_key typed in
    let hidden = erase x_content_type timed in
    (
      lookup-with_remote remote hidden content_type refl
          ∙ (lookup-erase x_content_type content_type timed
              ∙ (lookup-erase timeout_key content_type typed
                  ∙ lookup-insert content_type content_type (reply_type md) md)),
      lookup-with_remote remote hidden timeout_key refl
          ∙ (lookup-erase x_content_type timeout_key timed
              ∙ lookup-erase timeout_key timeout_key typed),
      lookup-with_remote remote hidden x_content_type refl
          ∙ lookup-erase x_content_type x_content_type timed,
    )

joined : Option (List Bytes) → Option Bytes → Option Bytes
joined none old = old
joined (some v) old = some (join v (codes ", "))

-- The incoming metadata have their values joined, and what was there before stays under the other keys.
lookup-join_values :
    (gmd : GoMap (List Bytes)) (md : Metadata) (k : Bytes)
    → Distinct gmd
    → lookup k (join_values gmd md) ≡ joined (lookup k gmd) (lookup k md)
unfolding join_values lookup joined
lookup-join_values [] md k d = refl
lookup-join_values ((j, v) ∷ gmd) md k d = ground (
  arith,
  lookup-join_values gmd (insert j (join v (codes ", ")) md) k d.1,
  lookup-insert j k (join v (codes ", ")) md,
  bytes_eq_iff j k,
)

-- The content type of the exchange is the one that the caller gives, if it gives one.
pub read_headers_xct :
    (incoming : GoMap (List Bytes)) (remote : Option Bytes) (xct : Bytes)
    → Distinct incoming
    → lookup x_content_type incoming ≡ some (xct ∷ [])
    → (read_headers (some incoming) remote).xct ≡ xct
unfolding read_headers exchange_type get_or joined join
read_headers_xct incoming remote xct d h =
    rw (lookup-join_values incoming [] x_content_type d, h) refl
