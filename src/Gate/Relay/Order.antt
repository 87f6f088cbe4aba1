-- ===== src/Gate/Relay/Order.antt =====
-- The messages stay in order, and the stream is closed once.
use go_vkit.Prelude.{
  ◌≤◌, ◌≡◌, refl, ◌∙◌, ap, Bool, true, false, ◌++◌, append_assoc, append-nil, List, [], ◌∷◌, Option,
  none, some, arith, ltb, if◌then◌else◌, length, length-append, Bool-cases, inl, inr,
}
use mathlib.Core.Path.{subst}
use go_vkit.Gate.Relay.{
  Reader, ready, holding, ended, Pipe, capacity, Action, reads, pushes, read_ends, writes,
  write_ends, read_message, push, end_read, write_message, act, returns, StreamContext, new_context,
  close, closed_if, Step, goes_up, goes_down, Steps, here, then_step,
}

abbrev pub held {ℓ} : {M : Type ℓ} → Reader M → List M
held ready = []
held (holding m) = m ∷ []
held ended = []

-- What was read is what was handed on, what is in the channel and what the reader holds, in this order.
pub record Ordered {ℓ} {M : Type ℓ} (p : Pipe M) : Type ℓ where
  pub in_order : p.taken ≡ p.given ++ (p.channel ++ held p.reader)
  pub bounded : length p.channel ≤ capacity

-- The pipe after an action is in order, if the action can be taken.
abbrev Kept {ℓ} : {M : Type ℓ} → Option (Pipe M) → Type ℓ
Kept none = Unit
Kept (some p) = Ordered p

module _ {ℓ} {M : Type ℓ} where
  with_reader :
      (r : Reader M) (p : Pipe M)
      → p.reader ≡ r
      → Ordered p
      → p.taken ≡ p.given ++ (p.channel ++ held r)
  with_reader r p e o = o.in_order ∙ ap (λ r. p.given ++ (p.channel ++ held r)) e

  read_message-Kept :
      (m : M) (r : Reader M) (p : Pipe M) → p.reader ≡ r → Ordered p → Kept (read_message m r p)
  unfolding read_message
  read_message-Kept m ready p e o = record {
    in_order = simp (with_reader ready p e o, append_assoc, append-nil);
    bounded = o.bounded;
  }
  read_message-Kept m (holding n) p e o = tt
  read_message-Kept m ended p e o = tt

  push-Kept : (r : Reader M) (p : Pipe M) → p.reader ≡ r → Ordered p → Kept (push r p)
  unfolding push
  push-Kept ready p e o = tt
  push-Kept (holding m) p e o = elim (Bool-cases (ltb (length p.channel) capacity)) [
    | inl room ↦ rw (room) (record {
      in_order = simp (with_reader (holding m) p e o, append-nil);
      bounded = ground (arith, length-append p.channel (m ∷ []));
    })
    | inr full ↦ rw (full) tt
  ]
  push-Kept ended p e o = tt

  end_read-Kept : (r : Reader M) (p : Pipe M) → p.reader ≡ r → Ordered p → Kept (end_read r p)
  unfolding end_read
  end_read-Kept ready p e o = record { in_order = with_reader ready p e o; bounded = o.bounded }
  end_read-Kept (holding m) p e o = tt
  end_read-Kept ended p e o = tt

  write_message-Kept :
      (fails : Bool) (ms : List M) (p : Pipe M)
      → p.channel ≡ ms
      → Ordered p
      → Kept (write_message fails ms p)
  unfolding write_message
  write_message-Kept fails [] p e o = tt
  write_message-Kept fails (m ∷ ms) p e o = elim (Bool-cases p.writing) [
    | inl runs ↦ rw (runs) (record {
      in_order = simp (o.in_order, e, append_assoc);
      bounded = ground (arith, e, o.bounded);
    })
    | inr stopped ↦ rw (stopped) tt
  ]

  act-Kept : (a : Action M) (p : Pipe M) → Ordered p → Kept (act a p)
  unfolding act
  act-Kept (reads m) p o = read_message-Kept m p.reader p refl o
  act-Kept pushes p o = push-Kept p.reader p refl o
  act-Kept read_ends p o = end_read-Kept p.reader p refl o
  act-Kept (writes fails) p o = write_message-Kept fails p.channel p refl o
  act-Kept write_ends p o = elim (Bool-cases p.writing) [
    | inl runs ↦ rw (runs) (record { in_order = o.in_order; bounded = o.bounded })
    | inr stopped ↦ rw (stopped) tt
  ]

-- Both directions are in order, and the stream was closed once if `isClose` is set, and else never.
pub record Faithful {ℓ} {M N : Type ℓ} (sc : StreamContext M N) : Type ℓ where
  pub up : Ordered sc.up
  pub down : Ordered sc.down
  pub once : sc.closes ≡ (if sc.is_close then 1 else 0)

module _ {ℓ} {M N : Type ℓ} where
  closed_if-Faithful : (b : Bool) (sc : StreamContext M N) → Faithful sc → Faithful (closed_if b sc)
  unfolding closed_if close
  closed_if-Faithful false sc f = f
  closed_if-Faithful true sc f = elim (Bool-cases sc.is_close) [
    | inl c ↦ simp (c) f
    | inr o ↦ rw (o) (record { up = f.up; down = f.down; once = ground (arith, f.once) })
  ]

  Step-Faithful : {b c : StreamContext M N} → Step b c → Faithful b → Faithful c
  Step-Faithful (goes_up a p e) f =
      closed_if-Faithful (returns a) _
        (record { up = subst Kept e (act-Kept a _ f.up); down = f.down; once = f.once })
  Step-Faithful (goes_down a p e) f =
      closed_if-Faithful (returns a) _
        (record { up = f.up; down = subst Kept e (act-Kept a _ f.down); once = f.once })

  start-Faithful : Faithful (new_context {M = M} {N = N})
  start-Faithful = record {
    up = record { in_order = refl; bounded = omega arith };
    down = record { in_order = refl; bounded = omega arith };
    once = refl;
  }

  -- However the goroutines interleave, no message is lost, repeated or overtaken before it is handed to the
  -- other side, the channels stay within their capacity, and the stream is closed at most once.
  pub Steps-Faithful : (sc : StreamContext M N) → Steps new_context sc → Faithful sc
  Steps-Faithful sc here = start-Faithful
  Steps-Faithful sc (then_step s t) = Step-Faithful t (Steps-Faithful _ s)
