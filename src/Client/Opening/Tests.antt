-- ===== src/Client/Opening/Tests.antt =====
-- A stream that ends with an error.
use go_vkit.Prelude.{true, List, [], ◌∷◌, none, some, codes, Bytes}
use go_vkit.Client.Opening.{Opening, request, open_stream}
use go_vkit.Client.Stream.{Call, recvs, closes}
use go_vkit.Client.Opening.Balance.{Balanced, open_stream-Balanced}

abbrev chat : Opening
chat = open_stream (λ m. m) (request none (codes "Chat") (codes "Chat.Talk")) none none

abbrev ending : List (Call Bytes)
ending = recvs (some (codes "EOF")) none ∷ closes none ∷ []

open_stream-Balanced_example : Balanced (λ e. true) chat ending
open_stream-Balanced_example =
    open_stream-Balanced (λ m. m) (request none (codes "Chat") (codes "Chat.Talk")) none none
      (λ e. true) ending
