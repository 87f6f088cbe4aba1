-- ===== src/Client/Invoke/Typed.antt =====
-- The codec of a call, from the metadata of its context.
use go_vkit.Prelude.{
  ◌≡◌, refl, ◌⊎◌, inl, inr, true, [], ◌∷◌, Option, some, arith, Bytes, ℤ, GoMap, bytes_eq,
  bytes_eq_iff, lookup, insert, lookup-insert, Bool-cases,
}
use go_vkit.Strings.{to_lower}
use go_vkit.Metadata.{Metadata}
use go_vkit.Metadata.Keys.{has, Holds}
use go_vkit.Codec.{codec_for}
use go_vkit.Client.Invoke.{lower_keys, header_of, or_default, x_content_type, prepare}

lookup-lower_keys :
    (j v : Bytes) (md : Metadata) (header : GoMap Bytes)
    → Holds j v md
    → (has j md ≡ true) ⊎ (lookup j header ≡ some v)
    → lookup j (lower_keys md header) ≡ some v
unfolding lower_keys has
lookup-lower_keys j v [] header h (inr e) = e
lookup-lower_keys j v [] header h (inl e) = ground arith
lookup-lower_keys j v ((k, w) ∷ md) header (hk, h) o = elim (Bool-cases (bytes_eq (to_lower k) j)) [
  | inl q ↦
      lookup-lower_keys j v md (insert (to_lower k) w header) h
        (inr (ground (arith, lookup-insert (to_lower k) j w header, bytes_eq_iff (to_lower k) j)))
  | inr q ↦ lookup-lower_keys j v md (insert (to_lower k) w header) h (elim o [
    | inl e ↦ inl (ground (arith, e, q))
    | inr e ↦ inr (ground (arith, lookup-insert (to_lower k) j w header))
  ])
]

-- Where the metadata hold a content type in whatever case of the key, the call has its codec.
pub prepare-codec :
    (atoi : Bytes → Option ℤ) (seconds : ℤ → ℤ) (default : ℤ) (md : Metadata) (remaining : Option ℤ)
    (service endpoint v : Bytes)
    → Holds x_content_type v md
    → has x_content_type md ≡ true
    → (prepare atoi seconds default (some md) remaining service endpoint).codec ≡ codec_for v
unfolding prepare header_of or_default
prepare-codec atoi seconds default md remaining service endpoint v h e =
    rw (lookup-lower_keys x_content_type v md [] h (inl e), or_default) refl
