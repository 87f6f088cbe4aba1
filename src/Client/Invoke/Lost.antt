-- ===== src/Client/Invoke/Lost.antt =====
-- The error of a call that does not reach the server's handler.
use go_vkit.Prelude.{
  ℕ, ◌≡◌, refl, ◌++◌, false, Option, none, some, codes, Bytes, if◌then◌else◌, is_some, ◌==◌,
}
use go_vkit.Strings.{index}
use go_vkit.Codec.{Codec}
use go_vkit.Errors.{NetError, bad_request, timeout, service_unavailable}
use go_vkit.Client.Invoke.{
  Sent, Texts, answered, expired, before, after, error_at, not_json, plain, error_of, finish,
  answer, connected, with_codec, invoke,
}

-- The status of the error for a text of gRPC's own.
abbrev pub text_status : Bytes → ℕ
text_status t = if is_some (index t (codes "code = Unavailable")) then 503 else 400

module _ (texts : Texts) (sent : Sent) (c : Codec) (has : sent.codec ≡ some c) where
  pub invoke-unreachable :
      (e : Bytes)
      → (n : NetError) × (n.status ≡ 400) × ((a : _) → invoke texts sent (some e) a ≡ before n)
  unfolding invoke with_codec connected plain bad_request
  invoke-unreachable e = (
    plain texts (codes "[grpcclient] Error sending request: " ++ e),
    refl,
    λ a. rw (has, with_codec) refl,
  )

  pub invoke-late :
      (e : Bytes)
      → (n : NetError) × (n.status ≡ 408)
        × (invoke texts sent none (expired e) ≡ after (some n) (some n) false)
  unfolding invoke with_codec connected answer finish timeout
  invoke-late e =
      (timeout (λ b. b) (codes "[grpcclient] req fail " ++ e), refl, rw (has, with_codec) refl)

  not_json-status :
      (text : Bytes) (o : Option ℕ)
      → (not_json texts o text).status ≡ (if is_some o then 503 else 400)
  unfolding not_json plain bad_request service_unavailable
  not_json-status text none = refl
  not_json-status text (some i) = refl

  error_of-not_json :
      (text : Bytes)
      → index text (codes "{\"") ≡ none
      → error_of texts text ≡ some (not_json texts (index text (codes "code = Unavailable")) text)
  unfolding error_of error_at
  error_of-not_json text h = rw (h, error_at) refl

  pub invoke-lost :
      (text : Bytes)
      → index text (codes "{\"") ≡ none
      → (n : NetError) × (n.status ≡ text_status text)
        × (invoke texts sent none (answered (some text))
            ≡ after (some n) (some n) (n.status == 503))
  unfolding invoke with_codec connected answer finish
  invoke-lost text h =
      let i = index text (codes "code = Unavailable") in
      (
        not_json texts i text,
        not_json-status text i,
        rw (has, with_codec, connected, answer, error_of-not_json text h) refl,
      )
