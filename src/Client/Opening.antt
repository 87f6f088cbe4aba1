-- ===== src/Client/Opening.antt =====
-- NewStream of grpcclient/client.go and StreamByGate of grpcclient/utils.go. What the pool and gRPC answer is an argument.
pub mod Balance
mod Tests
use go_vkit.Prelude.{
  Bool, true, false, List, [], ◌∷◌, ◌++◌, Option, none, some, codes, Bytes, GoMap, lookup, insert,
}
use go_vkit.Codec.{Codec, codec_for}
use go_vkit.Metadata.{Metadata}
use go_vkit.Routes.{method_to_grpc}
use go_vkit.Errors.{NetError, bad_request}
use go_vkit.Client.Invoke.{header_of, or_default, x_content_type}
use go_vkit.Client.Stream.{Stream, new_stream}

-- What opening a stream sends.
pub record Request : Type 0 where
  pub path : Bytes
  pub header : GoMap Bytes
  pub codec : Option Codec

pub request : Option Metadata → (service endpoint : Bytes) → Request
request md service endpoint =
    let header = header_of md in
    let xct = or_default (lookup x_content_type header) (codes "application/grpc") in
    record {
      path = method_to_grpc service endpoint;
      header = insert x_content_type xct header;
      codec = codec_for xct;
    }

-- What the pool is asked for: getConn gave a connection out, or release took it back with this error, `none` for nil.
pub data PoolCall : Type 0 where
  took : PoolCall
  released : Option Bytes → PoolCall

pub data Opened : Type 0 where
  failed : NetError → Opened
  opened : Stream Bytes → Opened

-- What NewStream returns, and what it asked of the pool, the first call first.
pub record Opening : Type 0 where
  pub result : Opened
  pub pool : List PoolCall

module _ (sprintf : Bytes → Bytes) where
  create_stream : Option Bytes → Opening
  create_stream none = record { result = opened new_stream; pool = [] }
  create_stream (some e) = record {
    result = failed (bad_request sprintf (codes "Error creating stream: " ++ e));
    pool = released (some e) ∷ [];
  }

  take_conn : (dial created : Option Bytes) → Opening
  unfolding create_stream
  take_conn none created = let o = create_stream created in record o { pool = took ∷ o.pool }
  take_conn (some e) created = record {
    result = failed (bad_request (λ b. b) (codes "[grpcclient] Error sending request: " ++ e));
    pool = [];
  }

  -- `dial` is the error of getConn, `created` that of gRPC's NewStream.
  pub open_stream : Request → (dial created : Option Bytes) → Opening
  unfolding take_conn
  open_stream r dial created = elim r.codec [
    | none ↦ record {
      result = failed (bad_request sprintf (codes "[grpcclient] codec not found"));
      pool = [];
    }
    | some c ↦ take_conn dial created
  ]

-- StreamByGate: every error of NewStream is a NetError.
pub stream_by_gate : Opened → Option NetError
stream_by_gate (failed e) = some e
stream_by_gate (opened s) = none
