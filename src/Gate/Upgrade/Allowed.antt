-- ===== src/Gate/Upgrade/Allowed.antt =====
-- Which requests are relayed.
use go_vkit.Prelude.{◌≡◌, ◌≢◌, refl, ap, Bool, List, [], ◌∷◌, Option, none, some, Bytes, GoMap, ℤ}
use mathlib.Core.Option.{some-injective, none-ne-some}
use mathlib.Core.List.{cons-ne-nil}
use go_vkit.Errors.{NetError}
use go_vkit.Metadata.{Metadata}
use go_vkit.Server.Handler.{returned, panicked, Outcome, MaybeError}
use go_vkit.Gate.Front.{names_of, media_type}
use go_vkit.Gate.Upgrade.{
  Connected, broken, relays, Handled, rejected, upgraded, metadata_of, stream_to, connect_names,
  connect_grpc_server, after_upgrade, try_upgrade, swallowed, authorised, handle_stream,
}

-- A request passes the authorisation if there is none or it has no error.
abbrev pub Authorised : Option (Outcome MaybeError) → Type 0
Authorised (some (returned (some e))) = ⊥
Authorised (some (panicked r)) = ⊥
Authorised (some (returned none)) = Unit
Authorised none = Unit

-- The connected service, and the metadata of an upgraded connection.
abbrev target_of : Connected → Option (Bytes × Bytes × Bytes)
target_of (broken e) = none
target_of (relays target service endpoint) = some (target, service, endpoint)

abbrev parts_of : Handled → Option (Metadata × Connected)
parts_of (rejected r) = none
parts_of (upgraded answered md c) = some (md, c)

module _ (sprintf : Bytes → Bytes) (text : NetError → Bytes)
    (open_stream : Metadata → (target service endpoint : Bytes) → Option NetError)
    (grpc_port : ℤ) where
  -- What relaying needs of the names in the URL.
  abbrev pub Named : Metadata → Bytes × Bytes → (target service endpoint : Bytes) → Type 0
  Named md names target service endpoint =
      (names ≡ (service, endpoint))
      × (service ≢ [])
      × (endpoint ≢ [])
      × (open_stream md target service endpoint ≡ none)

  stream_to-none :
      (md : Metadata) (t s e target service endpoint : Bytes)
      → stream_to sprintf text open_stream grpc_port md t s e ≡ relays target service endpoint
      → (t ≡ target) × (s ≡ service) × (e ≡ endpoint) × (open_stream md t s e ≡ none)
  unfolding stream_to
  stream_to-none md t s e target service endpoint h = go (open_stream md t s e) refl
    where
      go :
          (o : Option NetError)
          → open_stream md t s e ≡ o
          → (t ≡ target) × (s ≡ service) × (e ≡ endpoint) × (open_stream md t s e ≡ none)
      go none q =
          let p = some-injective _ _ (ap target_of (rw (q, stream_to) at h)) in
          (ap (λ r. r.0) p, ap (λ r. r.1) p, ap (λ r. r.2) p, q)
      go (some d) q = absurd (none-ne-some _ (ap target_of (rw (q, stream_to) at h)))

  connect_names-Named :
      (md : Metadata) (names : Bytes × Bytes) (target service endpoint : Bytes)
      → connect_names sprintf text open_stream grpc_port md names ≡ relays target service endpoint
      → Named md names target service endpoint
  unfolding connect_names
  connect_names-Named md ([], e) target service endpoint h =
      absurd (none-ne-some _ (ap target_of h))
  connect_names-Named md (c ∷ s, []) target service endpoint h =
      absurd (none-ne-some _ (ap target_of h))
  connect_names-Named md (c ∷ s, d ∷ e) target service endpoint h =
      let (p, q, r, o) = stream_to-none md _ (c ∷ s) (d ∷ e) target service endpoint h in
      rw (← p, ← q, ← r) (refl, cons-ne-nil _ _, cons-ne-nil _ _, o)

  after_upgrade-Named :
      (content_type : Bytes) (header : GoMap (List Bytes)) (uri : Bytes) (b : Bool) (md : Metadata)
      (target service endpoint : Bytes)
      → after_upgrade sprintf text open_stream grpc_port content_type header uri
        ≡ upgraded b md (relays target service endpoint)
      → Named md (names_of uri) target service endpoint
        × (md ≡ metadata_of (media_type content_type) header)
  unfolding after_upgrade connect_grpc_server
  after_upgrade-Named content_type header uri b md target service endpoint h =
      let p = some-injective _ _ (ap parts_of h) in
      let md0 = metadata_of (media_type content_type) header in
      rw (← ap (λ r. r.0) p)
        (connect_names-Named md0 (names_of uri) target service endpoint (ap (λ r. r.1) p), refl)

-- A request is relayed to a service only if it passes the authorisation, is upgraded, its URL names the service
-- and the endpoint, neither of them empty, and the stream to the service opened under the metadata made of its headers.
pub handle_stream-Named :
    (sprintf : Bytes → Bytes) (text : NetError → Bytes)
    (open_stream : Metadata → (target service endpoint : Bytes) → Option NetError) (grpc_port : ℤ)
    (auth : Option (Outcome MaybeError)) (upgrade : Option Bytes) (content_type : Bytes)
    (header : GoMap (List Bytes)) (uri : Bytes) (b : Bool) (md : Metadata)
    (target service endpoint : Bytes)
    → handle_stream sprintf text open_stream grpc_port auth upgrade content_type header uri
      ≡ upgraded b md (relays target service endpoint)
    → Authorised auth
      × (upgrade ≡ none)
      × Named sprintf text open_stream grpc_port md (names_of uri) target service endpoint
      × (md ≡ metadata_of (media_type content_type) header)
unfolding handle_stream authorised swallowed try_upgrade
handle_stream-Named sprintf text open_stream grpc_port (some (panicked r)) upgrade ct header uri b
      md t s d h =
    absurd (none-ne-some _ (ap parts_of h))
handle_stream-Named sprintf text open_stream grpc_port (some (returned (some e))) upgrade ct header
      uri b md t s d h =
    absurd (none-ne-some _ (ap parts_of h))
handle_stream-Named sprintf text open_stream grpc_port (some (returned none)) (some e) ct header uri
      b md t s d h =
    absurd (none-ne-some _ (ap parts_of h))
handle_stream-Named sprintf text open_stream grpc_port none (some e) ct header uri b md t s d h =
    absurd (none-ne-some _ (ap parts_of h))
handle_stream-Named sprintf text open_stream grpc_port (some (returned none)) none ct header uri b
      md t s d h =
    let (n, m) =
      after_upgrade-Named sprintf text open_stream grpc_port ct header uri b md t s d h in
    (tt, refl, n, m)
handle_stream-Named sprintf text open_stream grpc_port none none ct header uri b md t s d h =
    let (n, m) =
      after_upgrade-Named sprintf text open_stream grpc_port ct header uri b md t s d h in
    (tt, refl, n, m)
