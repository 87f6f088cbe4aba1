-- ===== src/Gate/Upgrade.antt =====
-- StreamHandler.Handle and connectGrpcServer of gate/streamhandler.go, up to the relay of Gate.Relay. What the
-- authorisation, the upgrade to a WebSocket and the gRPC server answer is an argument.
pub mod Allowed
pub mod Typed
mod Tests
use go_vkit.Prelude.{
  Bool, true, false, not, List, [], ◌∷◌, ◌++◌, Option, none, some, codes, Bytes, bytes_eq,
  if◌then◌else◌, GoMap, insert, ℤ,
}
use go_vkit.Strings.{to_lower, join}
use go_vkit.Strings.Decimal.{format_int}
use go_vkit.Routes.{is_empty}
use go_vkit.Errors.{NetError, Error, net, forbidden}
use go_vkit.Metadata.{Metadata}
use go_vkit.Server.Handler.{Outcome, returned, panicked, MaybeError}
use go_vkit.Gate.Front.{Reply, error_response, recovered, media_type, names_of}

-- `for k, v := range r.Header { if k == "Connection" { continue }; md[strings.ToLower(k)] = ... }`
header_into : GoMap (List Bytes) → Metadata → Metadata
header_into [] md = md
header_into ((k, v) ∷ header) md =
    header_into header
      (if bytes_eq k (codes "Connection") then md else insert (to_lower k) (join v (codes ",")) md)

unfoldable pub metadata_of : (read_ct : Bytes) → GoMap (List Bytes) → Metadata
unfolding header_into
metadata_of read_ct header = header_into header ((codes "x-content-type", read_ct) ∷ [])

-- What connectGrpcServer returns: the text of an error, or the service that the messages are relayed to.
pub data Connected : Type 0 where
  broken : Bytes → Connected
  relays : (target service endpoint : Bytes) → Connected

-- A reply before the upgrade; or an upgraded connection, with whether an error response was sent on it.
pub data Handled : Type 0 where
  rejected : Outcome Reply → Handled
  upgraded : (answered : Bool) → Metadata → Connected → Handled

module _ (sprintf : Bytes → Bytes) (text : NetError → Bytes) where
  -- `open` is StreamByGate.
  module _ (open_stream : Metadata → (target service endpoint : Bytes) → Option NetError)
      (grpc_port : ℤ) where
    stream_to : Metadata → (target service endpoint : Bytes) → Connected
    stream_to md target service endpoint = elim (open_stream md target service endpoint) [
      | none ↦ relays target service endpoint
      | some e ↦ broken (codes "StreamByGate fail:" ++ text e)
    ]

    connect_names : Metadata → Bytes × Bytes → Connected
    unfolding stream_to
    connect_names md (service, endpoint) =
        if is_empty service
        then broken (codes "service is empty")
        else if is_empty endpoint
        then broken (codes "endpoint is empty")
        else stream_to md (service ++ (b':' ∷ format_int grpc_port)) service endpoint

    pub connect_grpc_server : Metadata → (request_uri : Bytes) → Connected
    unfolding connect_names
    connect_grpc_server md request_uri = connect_names md (names_of request_uri)

    -- The connection is there. The response to a wrong content type does not end the call.
    after_upgrade : (content_type : Bytes) → GoMap (List Bytes) → (request_uri : Bytes) → Handled
    unfolding connect_grpc_server metadata_of
    after_upgrade content_type header request_uri =
        let read_ct = media_type content_type in
        let md = metadata_of read_ct header in
        upgraded (not (bytes_eq (to_lower read_ct) (codes "application/json"))) md
          (connect_grpc_server md request_uri)

    try_upgrade :
        (upgrade : Option Bytes)
        → (content_type : Bytes) → GoMap (List Bytes)
        → (request_uri : Bytes) → Handled
    unfolding after_upgrade
    try_upgrade (some e) content_type header request_uri =
        rejected (error_response (net (forbidden sprintf e)))
    try_upgrade none content_type header request_uri = after_upgrade content_type header request_uri

    -- A panic is recovered with no reply, as the second call of recover returns nil.
    swallowed : Handled → Handled
    swallowed (rejected r) = rejected (recovered none r)
    swallowed (upgraded answered md c) = upgraded answered md c

    authorised :
        Option (Outcome MaybeError)
        → (upgrade : Option Bytes) → (content_type : Bytes) → GoMap (List Bytes)
        → (request_uri : Bytes) → Handled
    unfolding try_upgrade
    authorised (some (panicked r)) upgrade content_type header request_uri = rejected (panicked r)
    authorised (some (returned (some e))) upgrade content_type header request_uri =
        rejected (error_response e)
    authorised (some (returned none)) upgrade content_type header request_uri =
        try_upgrade upgrade content_type header request_uri
    authorised none upgrade content_type header request_uri =
        try_upgrade upgrade content_type header request_uri

    -- `auth` is nil, or returns nil or an error, or panics; `upgrade` is the text of the error of Upgrade.
    pub handle_stream :
        (auth : Option (Outcome MaybeError)) (upgrade : Option Bytes)
        → (content_type : Bytes) → GoMap (List Bytes)
        → (request_uri : Bytes) → Handled
    unfolding authorised swallowed
    handle_stream auth upgrade content_type header request_uri =
        swallowed (authorised auth upgrade content_type header request_uri)
