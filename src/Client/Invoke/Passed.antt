-- ===== src/Client/Invoke/Passed.antt =====
-- How an error of the server reaches the caller, and what the pool is told.
use go_vkit.Prelude.{
  ℕ, ◌≤◌, ◌<◌, ◌≡◌, refl, ap, ◌∙◌, false, ◌++◌, ◌==◌, [], ◌∷◌, Option, none, some, arith, codes,
  Bytes, length, drop, pos, ℤ, GoMap, lookup, insert, lookup-insert, bytes_eq,
}
use go_vkit.Strings.{index, has_prefix}
use go_vkit.Strings.Laws.{Lacks}
use go_vkit.Strings.Decimal.{format_uint, format_int}
use go_vkit.Metadata.{Metadata}
use go_vkit.Server.Headers.{time_limit}
use go_vkit.Server.Headers.Laws.{time_limit-format_uint}
use go_vkit.Codec.{Codec}
use go_vkit.Errors.{NetError, whole, parse}
use go_vkit.Client.Invoke.{
  Sent, Answer, answered, expired, Invoked, before, after, crashed, Texts, error_at, parse_from,
  error_of, finish, prepare, timeout_key, x_content_type, answer, connected, with_codec, invoke,
}

index-behind :
    (p rest : Bytes)
    → Lacks b'{' p
    → index (p ++ codes "{\"" ++ rest) (codes "{\"") ≡ some (length p)
unfolding index has_prefix
index-behind [] rest h = ground arith
index-behind (c ∷ p) rest (hc, h) = ground (arith, index-behind p rest h)

-- An error of the server arrives at the caller as it left: where gRPC wraps the JSON text of a NetError
-- in a prefix without `{`, Invoke returns that NetError, gives the connection back with it, and removes the
-- client if its status is 503. The hypotheses are of the conversions between strings and runes, where
-- each byte of the prefix is a rune, and that json.Unmarshal reads the text back.
pub invoke-passed :
    (texts : Texts) (sent : Sent) (c : Codec) (e : NetError) (prefix rest : Bytes)
    → sent.codec ≡ some c
    → Lacks b'{' prefix
    → length prefix ≤ length (texts.runes (prefix ++ codes "{\"" ++ rest))
    → texts.of_runes (drop (length prefix) (texts.runes (prefix ++ codes "{\"" ++ rest)))
      ≡ codes "{\"" ++ rest
    → texts.unmarshal (codes "{\"" ++ rest) ≡ whole e
    → invoke texts sent none (answered (some (prefix ++ codes "{\"" ++ rest)))
      ≡ after (some e) (some e) (e.status == 503)
unfolding invoke with_codec connected answer finish error_of error_at parse_from parse
invoke-passed texts sent c e prefix rest has lacks long back parses =
    ground (arith, index-behind prefix rest lacks)

pub invoke-succeeded :
    (texts : Texts) (sent : Sent) (c : Codec)
    → sent.codec ≡ some c
    → invoke texts sent none (answered none) ≡ after none none false
unfolding invoke with_codec connected answer finish
invoke-succeeded texts sent c has = rw (has, with_codec) refl

-- The pool is told the error that the call returns, and the client is removed just for status 503.
abbrev pub Told : Invoked → Type 0
Told (before e) = Unit {0}
Told (after none released removed) = (released ≡ none) × (removed ≡ false)
Told (after (some e) released removed) = (released ≡ some e) × (removed ≡ (e.status == 503))
Told crashed = Unit {0}

finish-Told : (texts : Texts) (o : Option NetError) → Told (finish texts o)
unfolding finish
finish-Told texts none = (refl, refl)
finish-Told texts (some e) = (refl, refl)

error_at-Told :
    (texts : Texts) (o : Option NetError)
    → Told (elim o [ none ↦ crashed | some e ↦ finish texts (some e) ])
error_at-Told texts none = tt
error_at-Told texts (some e) = finish-Told texts (some e)

connected-Told : (texts : Texts) (dial : Option Bytes) (a : Answer) → Told (connected texts dial a)
unfolding connected answer
connected-Told texts (some e) a = tt
connected-Told texts none (answered none) = finish-Told texts none
connected-Told texts none (answered (some text)) = error_at-Told texts (error_of texts text)
connected-Told texts none (expired t) = finish-Told texts (some _)

with_codec-Told :
    (texts : Texts) (c : Option Codec) (dial : Option Bytes) (a : Answer)
    → Told (with_codec texts c dial a)
unfolding with_codec
with_codec-Told texts none dial a = tt
with_codec-Told texts (some c) dial a = connected-Told texts dial a

-- Whatever gRPC answers, and when the time is over: a call that took a connection gives it back with the
-- error that it returns, so that the pool closes it just where the call failed; and it removes the client
-- just where that error has status 503.
pub invoke-Told :
    (texts : Texts) (sent : Sent) (dial : Option Bytes) (a : Answer)
    → Told (invoke texts sent dial a)
unfolding invoke
invoke-Told texts sent dial a = with_codec-Told texts sent.codec dial a

lookup-timeout :
    (xct t : Bytes) (m : GoMap Bytes)
    → lookup timeout_key (insert x_content_type xct (insert timeout_key t m)) ≡ some t
unfolding bytes_eq
lookup-timeout xct t m =
    lookup-insert x_content_type timeout_key xct (insert timeout_key t m)
    ∙ lookup-insert timeout_key timeout_key t m

-- The time limit of a call, where it is not negative, is sent to the server, and it is the limit that the
-- server sets for it.
pub prepare-time_limit :
    (atoi : Bytes → Option ℤ) (seconds : ℤ → ℤ) (default : ℤ) (md : Option Metadata)
    (remaining : Option ℤ) (service endpoint : Bytes) (d : ℕ)
    → (prepare atoi seconds default md remaining service endpoint).limit ≡ pos d
    → d < 9223372036854775808
    → (t : Bytes) × (lookup timeout_key
          (prepare atoi seconds default md remaining service endpoint).header
        ≡ some t)
      × (time_limit t ≡ some (pos d))
unfolding prepare format_int
prepare-time_limit atoi seconds default md remaining service endpoint d h small = (
  format_uint d,
  lookup-timeout _ _ _ ∙ ap (λ l. some (format_int l)) h,
  time_limit-format_uint d small,
)
