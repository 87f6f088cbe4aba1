-- ===== src/Gate/Relay/Stuck.antt =====
-- A reader that nobody frees: wsRead and grpcRead send to a channel without a look at their context.
use go_vkit.Prelude.{
  ◌≤◌, ◌≡◌, refl, sym, ◌∙◌, Bool, true, false, List, [], ◌∷◌, none, arith, length, Bool-cases, inl,
  inr,
}
use mathlib.Core.Path.{subst}
use go_vkit.Gate.Relay.{
  holding, Pipe, capacity, Action, reads, pushes, read_ends, writes, write_ends, read_message, push,
  end_read, write_message, act, returns, StreamContext, close, closed_if, Step, goes_up, goes_down,
  Steps, here, then_step,
}

-- The reader holds a message for a full channel that nobody empties any more.
pub record Jammed {ℓ} {M : Type ℓ} (m : M) (p : Pipe M) : Type ℓ where
  pub waits : p.reader ≡ holding m
  pub full : capacity ≤ length p.channel
  pub stopped : p.writing ≡ false

module _ {ℓ} {M : Type ℓ} (m : M) where
  write_message-Jammed :
      (fails : Bool) (ms : List M) (p : Pipe M)
      → p.writing ≡ false
      → write_message fails ms p ≡ none
  unfolding write_message
  write_message-Jammed fails [] p h = refl
  write_message-Jammed fails (n ∷ ms) p h = rw (h)

  act-Jammed : (a : Action M) (p : Pipe M) → Jammed m p → act a p ≡ none
  unfolding act read_message push end_read
  act-Jammed (reads n) p j = rw (j.waits)
  act-Jammed pushes p j = rw (j.waits) (ground (arith, j.full))
  act-Jammed read_ends p j = rw (j.waits)
  act-Jammed (writes fails) p j = write_message-Jammed fails p.channel p j.stopped
  act-Jammed write_ends p j = rw (j.stopped)

module _ {ℓ} {M N : Type ℓ} where
  closed_if-up : (b : Bool) (sc : StreamContext M N) → (closed_if b sc).up ≡ sc.up
  unfolding closed_if close
  closed_if-up false sc = refl
  closed_if-up true sc = elim (Bool-cases sc.is_close) [ inl c ↦ rw (c) | inr o ↦ rw (o) ]

  Step-Jammed : (m : M) (b c : StreamContext M N) → Step b c → Jammed m b.up → c.up ≡ b.up
  Step-Jammed m b c (goes_up a p e) j = absurd (ground (arith, act-Jammed m a b.up j))
  Step-Jammed m b c (goes_down a p e) j = closed_if-up (returns a) _

-- If the goroutine that writes to the gRPC stream returns while the channel is full and a message waits for
-- room in it, then after any further steps of the others, a Close of the stream among them, the goroutine
-- that reads the WebSocket still waits with this message, and the channel is as it was.
pub Steps-Jammed {ℓ} :
    {M N : Type ℓ} (m : M) (b c : StreamContext M N)
    → Jammed m b.up
    → Steps b c
    → (c.up ≡ b.up) × (c.up.reader ≡ holding m)
Steps-Jammed m b c j here = (refl, j.waits)
Steps-Jammed m b c j (then_step s t) =
    let (e, w) = Steps-Jammed m b _ j s in
    let still = Step-Jammed m _ c t (subst (Jammed m) (sym e) j) ∙ e in
    (still, subst (λ p. p.reader ≡ holding m) (sym still) j.waits)
