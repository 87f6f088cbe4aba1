-- ===== src/Client/Stream.antt =====
-- grpcclient/stream.go: a stream of a client, with the callback that gives its connection back to the
-- pool. The results of the embedded grpc.ClientStream are arguments, `none` for a nil error.
pub mod Released
use go_vkit.Prelude.{
  Bool, true, false, ◌&&◌, List, [], ◌∷◌, Option, none, some, if◌then◌else◌, is_some,
}

-- `released` has the error of each call of the callback `close`, the last first.
pub record Stream {ℓ} (E : Type ℓ) : Type ℓ where
  pub closed : Bool
  pub err : Option E
  pub released : List (Option E)

abbrev pub new_stream {ℓ} : {E : Type ℓ} → Stream E
new_stream = record { closed = false; err = none; released = [] }

module _ {ℓ} {E : Type ℓ} where
  set_error : Option E → Stream E → Stream E
  set_error e s = record s { err = e }

  unfoldable pub close : (close_send : Option E) → Stream E → Option E × Stream E
  close close_send s =
      if s.closed
      then (none, s)
      else (close_send, record s { closed = true; released = s.err ∷ s.released })

  unfoldable pub send : (send_msg : Option E) → Stream E → Option E × Stream E
  unfolding set_error
  send none s = (none, s)
  send (some e) s = (some e, set_error (some e) s)

  -- io.EOF gives way to the error of Close.
  recv_error : (is_eof : Bool) → E → (closing : Option E) → Option E
  recv_error is_eof e closing = if is_eof && is_some closing then closing else some e

  -- `defer g.setError(err)` takes the value that err has at the defer, which is nil.
  unfoldable pub recv :
      (E → Bool) → (recv_msg close_send : Option E) → Stream E → Option E × Stream E
  unfolding set_error close recv_error
  recv is_eof none close_send s = (none, set_error none s)
  recv is_eof (some e) close_send s =
      let (closing, t) = close close_send s in (recv_error (is_eof e) e closing, set_error none t)

-- A call of a stream, with what the embedded stream answers.
pub data Call {ℓ} (E : Type ℓ) : Type ℓ where
  sends : (send_msg : Option E) → Call E
  recvs : (recv_msg close_send : Option E) → Call E
  closes : (close_send : Option E) → Call E

module _ {ℓ} {E : Type ℓ} (is_eof : E → Bool) where
  unfoldable pub call : Call E → Stream E → Stream E
  unfolding send recv close
  call (sends m) s = (send m s).1
  call (recvs m c) s = (recv is_eof m c s).1
  call (closes c) s = (close c s).1

  unfoldable pub calls : List (Call E) → Stream E → Stream E
  unfolding call
  calls [] s = s
  calls (c ∷ cs) s = calls cs (call c s)
