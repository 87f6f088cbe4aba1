-- ===== src/Gate/Upgrade/Typed.antt =====
-- The content type in the metadata that the gate makes of a request.
use go_vkit.Prelude.{
  ◌≡◌, refl, ◌∙◌, sym, ◌≢◌, true, List, [], ◌∷◌, arith, codes, Bytes, GoMap, All, bytes_eq,
  Bool-cases, inl, inr,
}
use go_vkit.Strings.{to_lower, join}
use go_vkit.Strings.Laws.{to_lower_idem}
use go_vkit.Metadata.{Metadata}
use go_vkit.Metadata.Keys.{has, Holds, insert-Holds, insert-has}
use go_vkit.Gate.Upgrade.{header_into, metadata_of}

-- No header has this name, in any case.
abbrev pub Avoids : Bytes → GoMap (List Bytes) → Type 0
Avoids j = All (λ e. to_lower e.0 ≢ j)

module _ (j : Bytes) where
  header_into-Holds :
      (v : Bytes) (header : GoMap (List Bytes)) (md : Metadata)
      → Avoids j header
      → Holds j v md
      → Holds j v (header_into header md)
  unfolding header_into
  header_into-Holds v [] md a h = h
  header_into-Holds v ((k, w) ∷ header) md (n, a) h =
      elim (Bool-cases (bytes_eq k (codes "Connection"))) [
        | inl e ↦ rw (e) (header_into-Holds v header md a h)
        | inr e ↦ rw (e) (
            header_into-Holds v header _ a (
              insert-Holds j v (to_lower k) (join w (codes ",")) md
                (λ q. absurd (n (sym (to_lower_idem k) ∙ q))) h))
      ]

  header_into-has :
      (header : GoMap (List Bytes)) (md : Metadata)
      → has j md ≡ true
      → has j (header_into header md) ≡ true
  unfolding header_into
  header_into-has [] md h = h
  header_into-has ((k, w) ∷ header) md h = elim (Bool-cases (bytes_eq k (codes "Connection"))) [
    | inl e ↦ rw (e) (header_into-has header md h)
    | inr e ↦ rw (e) (
        header_into-has header _
          (ground (arith, insert-has j (to_lower k) (join w (codes ",")) md)))
  ]

-- Where no header is called x-content-type, the metadata hold the request's content type under this key.
pub metadata_of-Holds :
    (ct : Bytes) (header : GoMap (List Bytes))
    → Avoids (codes "x-content-type") header
    → Holds (codes "x-content-type") ct (metadata_of ct header)
      × (has (codes "x-content-type") (metadata_of ct header) ≡ true)
unfolding metadata_of has bytes_eq to_lower
metadata_of-Holds ct header a = (
  header_into-Holds (codes "x-content-type") ct header _ a (λ e. refl, tt),
  header_into-has (codes "x-content-type") header _ refl,
)
