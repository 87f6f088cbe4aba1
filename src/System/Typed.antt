-- ===== src/System/Typed.antt =====
-- The content type of an HTTP request is the one of its call.
use go_vkit.Prelude.{◌≡◌, ℤ, List, none, Bytes, GoMap}
use go_vkit.Metadata.{background}
use go_vkit.Metadata.Keys.{from_context-Holds}
use go_vkit.Codec.{codec_for}
use go_vkit.Client.Invoke.{x_content_type}
use go_vkit.Client.Invoke.Typed.{prepare-codec}
use go_vkit.Gate.Upgrade.Typed.{Avoids, metadata_of-Holds}
use go_vkit.System.{Library, request_to_context, sent}

-- Through the gate's metadata, FromContext, which titles the keys, and the client's headers, which are in lower case:
-- where no header of the request is called x-content-type, the client calls with the codec of the request's
-- content type.
pub sent-request_to_context :
    (lib : Library) (default : ℤ) (ct : Bytes) (header : GoMap (List Bytes))
    (service endpoint : Bytes)
    → Avoids x_content_type header
    → (sent lib default (request_to_context ct header) service endpoint).codec ≡ codec_for ct
unfolding sent request_to_context
sent-request_to_context lib default ct header service endpoint avoids =
    let (h, e) = metadata_of-Holds ct header avoids in
    let (new, found, hn, en) = from_context-Holds x_content_type ct background _ h e in
    rw (found) (prepare-codec lib.atoi lib.seconds default new none service endpoint ct hn en)
