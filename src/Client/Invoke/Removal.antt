-- ===== src/Client/Invoke/Removal.antt =====
-- When a call removes its client.
use go_vkit.Prelude.{◌≡◌, refl, Bool, false, Option, none, some, Bytes, ◌==◌, ◌++◌, codes}
use go_vkit.Errors.{NetError, bad_request, timeout}
use go_vkit.Codec.{Codec}
use go_vkit.Client.Invoke.{
  Sent, Answer, answered, expired, Invoked, after, crashed, Texts, plain, error_of, finish, answer,
  connected, with_codec, invoke, invoke_by_gate,
}

-- The caller sees status 503.
abbrev pub is_unavailable : Option NetError → Bool
is_unavailable none = false
is_unavailable (some e) = e.status == 503

-- The client is removed.
unfoldable pub removes : Invoked → Bool
removes (after e released removed) = removed
removes i = false

module _ (texts : Texts) where
  abbrev pub Removes : Invoked → Type 0
  Removes i = removes i ≡ is_unavailable (invoke_by_gate texts i)

  finish-Removes : (o : Option NetError) → Removes (finish texts o)
  unfolding finish removes invoke_by_gate
  finish-Removes none = refl
  finish-Removes (some e) = refl

  text-Removes :
      (o : Option NetError) → Removes (elim o [ none ↦ crashed | some e ↦ finish texts (some e) ])
  unfolding removes invoke_by_gate
  text-Removes none = refl
  text-Removes (some e) = finish-Removes (some e)

  connected-Removes : (dial : Option Bytes) (a : Answer) → Removes (connected texts dial a)
  unfolding connected answer removes invoke_by_gate plain bad_request
  connected-Removes (some e) a = refl
  connected-Removes none (answered none) = finish-Removes none
  connected-Removes none (answered (some text)) = text-Removes (error_of texts text)
  connected-Removes none (expired t) =
      finish-Removes (some (timeout (λ b. b) (codes "[grpcclient] req fail " ++ t)))

  with_codec-Removes :
      (c : Option Codec) (dial : Option Bytes) (a : Answer) → Removes (with_codec texts c dial a)
  unfolding with_codec removes invoke_by_gate bad_request
  with_codec-Removes none dial a = refl
  with_codec-Removes (some c) dial a = connected-Removes dial a

  pub invoke-Removes :
      (sent : Sent) (dial : Option Bytes) (a : Answer) → Removes (invoke texts sent dial a)
  unfolding invoke
  invoke-Removes sent dial a = with_codec-Removes sent.codec dial a
