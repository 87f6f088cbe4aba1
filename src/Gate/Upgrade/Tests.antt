-- ===== src/Gate/Upgrade/Tests.antt =====
-- A request that is relayed.
use go_vkit.Prelude.{
  ◌≡◌, refl, false, List, [], ◌∷◌, Option, none, codes, Bytes, bytes_eq, GoMap, pos,
}
use go_vkit.Strings.{index, has_prefix, shift, split, cons_head, to_lower, byte_lower}
use go_vkit.Strings.Decimal.{format_int, format_uint}
use go_vkit.Errors.{NetError}
use go_vkit.Metadata.{Metadata}
use go_vkit.Gate.Front.{media_type, cut_at, names_of, path_names}
use go_vkit.Gate.Upgrade.{
  relays, upgraded, metadata_of, handle_stream, authorised, try_upgrade, after_upgrade,
  connect_grpc_server, connect_names, stream_to, swallowed,
}
use go_vkit.Gate.Upgrade.Allowed.{Authorised, Named, handle_stream-Named}

abbrev header : GoMap (List Bytes)
header = (codes "Content-Type", codes "application/json" ∷ []) ∷ []

abbrev opening : Metadata → Bytes → Bytes → Bytes → Option NetError
opening md target service endpoint = none

abbrev text : NetError → Bytes
text e = e.msg

abbrev md : Metadata
md = metadata_of (media_type (codes "application/json")) header

relayed :
    handle_stream
      (λ m. m)
      text
      opening
      (pos 10000)
      none
      none
      (codes "application/json")
      header
      (codes "/rpc/chat/Chat.Talk")
    ≡ upgraded false md (relays (codes "chat:10000") (codes "chat") (codes "Chat.Talk"))
unfolding handle_stream authorised try_upgrade after_upgrade connect_grpc_server connect_names
    stream_to swallowed media_type cut_at names_of path_names index has_prefix shift split cons_head
    to_lower byte_lower bytes_eq format_int format_uint
relayed = refl

handle_stream-Named_example :
    Authorised none
    × (◌≡◌ {A = Option Bytes} none none)
    × Named
        (λ m. m)
        text
        opening
        (pos 10000)
        md
        (names_of (codes "/rpc/chat/Chat.Talk"))
        (codes "chat:10000")
        (codes "chat")
        (codes "Chat.Talk")
    × (md ≡ metadata_of (media_type (codes "application/json")) header)
handle_stream-Named_example =
    handle_stream-Named (λ m. m) text opening (pos 10000) none none (codes "application/json")
      header (codes "/rpc/chat/Chat.Talk") false md (codes "chat:10000") (codes "chat")
      (codes "Chat.Talk") relayed
