-- ===== src/Codec.antt =====
-- codec/codec.go: the table of codecs by content type, and the choices that a codec makes.
pub mod Values
use go_vkit.Prelude.{[], ◌∷◌, Option, codes, Bytes, GoMap, lookup}

pub data Codec : Type 0 where
  json proto : Codec

pub name : Codec → Bytes
name json = codes "json"
name proto = codes "proto"

unfoldable pub default_codecs : GoMap Codec
default_codecs =
    (codes "application/json", json)
    ∷ (codes "application/x-www-form-urlencoded", json)
    ∷ (codes "multipart/form-data", json)
    ∷ (codes "application/proto", proto)
    ∷ (codes "application/protobuf", proto)
    ∷ (codes "application/octet-stream", proto)
    ∷ (codes "application/grpc", proto)
    ∷ (codes "application/grpc+proto", proto)
    ∷ []

-- `none` is the nil interface of a type that the table does not hold.
unfoldable pub codec_for : Bytes → Option Codec
unfolding default_codecs
codec_for content_type = lookup content_type default_codecs
