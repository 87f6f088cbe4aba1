-- ===== src/Codec/Values.antt =====
-- Marshal and Unmarshal of the two codecs of codec/codec.go: by the Go type of a value they choose a library.
use go_vkit.Prelude.{[], ◌∷◌, Option, none, some, Bytes, Result, ok, err}
use go_vkit.Codec.{Codec, json, proto}

-- A value of type `any`: a proto.Message, a []byte, or anything else.
pub data Value (P V : Type 0) : Type 0 where
  message : P → Value P V
  raw : Bytes → Value P V
  plain : V → Value P V

-- protojson with the options of the package, proto and encoding/json; Unmarshal writes into a value, which an
-- error leaves in some state.
pub record Libraries (P V : Type 0) : Type 0 where
  pub protojson_marshal : P → Result Bytes
  pub protojson_unmarshal : Bytes → P → P × Option Bytes
  pub proto_marshal : P → Result Bytes
  pub proto_unmarshal : Bytes → P → P × Option Bytes
  pub json_marshal : V → Result Bytes
  pub json_unmarshal : Bytes → V → V × Option Bytes
  pub json_unmarshal_raw : Bytes → Bytes → Bytes × Option Bytes

module _ {P V : Type 0} (lib : Libraries P V) (err_invalid_message : Bytes) where
  pub marshal : Codec → Value P V → Result Bytes
  marshal proto (message m) = lib.proto_marshal m
  marshal proto (raw b) = err err_invalid_message
  marshal proto (plain v) = err err_invalid_message
  marshal json (message m) = lib.protojson_marshal m
  marshal json (raw b) = ok b
  marshal json (plain v) = lib.json_marshal v

  -- Empty data leaves the value as it is.
  unmarshal_json : Bytes → Value P V → Value P V × Option Bytes
  unmarshal_json [] v = (v, none)
  unmarshal_json (c ∷ text) (message m) =
      let (n, e) = lib.protojson_unmarshal (c ∷ text) m in (message n, e)
  unmarshal_json (c ∷ text) (raw b) = let (n, e) = lib.json_unmarshal_raw (c ∷ text) b in (raw n, e)
  unmarshal_json (c ∷ text) (plain v) = let (n, e) = lib.json_unmarshal (c ∷ text) v in (plain n, e)

  pub unmarshal : Codec → Bytes → Value P V → Value P V × Option Bytes
  unfolding unmarshal_json
  unmarshal json text v = unmarshal_json text v
  unmarshal proto text (message m) = let (n, e) = lib.proto_unmarshal text m in (message n, e)
  unmarshal proto text (raw b) = (raw b, some err_invalid_message)
  unmarshal proto text (plain v) = (plain v, some err_invalid_message)
