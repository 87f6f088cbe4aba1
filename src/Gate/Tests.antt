-- ===== src/Gate/Tests.antt =====
-- Messages between a WebSocket and a gRPC stream.
use go_vkit.Prelude.{ℕ, ◌≡◌, refl, true, false, ◌∷◌, [], arith}
use go_vkit.Gate.Relay.{
  Pipe, holding, ready, new_pipe, reads, pushes, act, returns, StreamContext, closed_if, here,
  then_step, goes_up, goes_down,
}
use go_vkit.Gate.Relay.Order.{Faithful, Steps-Faithful}
use go_vkit.Gate.Relay.Stuck.{Steps-Jammed}

-- One message was read from the WebSocket and is in the channel.
abbrev pushed : Pipe ℕ
pushed = record { taken = 7 ∷ []; reader = ready; channel = 7 ∷ []; given = []; writing = true }

abbrev after_push : StreamContext ℕ ℕ
after_push = record { up = pushed; down = new_pipe; is_close = false; closes = 0 }

Steps-Faithful_example : Faithful after_push
unfolding act closed_if returns
Steps-Faithful_example = Steps-Faithful after_push (
    then_step
      (then_step here (
        goes_up (reads 7)
          (record { taken = 7 ∷ []; reader = holding 7; channel = []; given = []; writing = true })
          refl))
      (goes_up pushes pushed refl))

-- The gRPC stream failed while the channel was full.
abbrev jammed : StreamContext ℕ ℕ
jammed = record {
  up = record {
    taken = 0 ∷ 1 ∷ 2 ∷ 3 ∷ 4 ∷ 5 ∷ 6 ∷ 7 ∷ 8 ∷ 9 ∷ 10 ∷ [];
    reader = holding 10;
    channel = 0 ∷ 1 ∷ 2 ∷ 3 ∷ 4 ∷ 5 ∷ 6 ∷ 7 ∷ 8 ∷ 9 ∷ [];
    given = [];
    writing = false;
  };
  down = new_pipe;
  is_close = true;
  closes = 1;
}

abbrev after_read : StreamContext ℕ ℕ
after_read = record jammed {
  down = record { taken = 5 ∷ []; reader = holding 5; channel = []; given = []; writing = true };
}

Steps-Jammed_example : (after_read.up ≡ jammed.up) × (after_read.up.reader ≡ holding 10)
unfolding act closed_if returns
Steps-Jammed_example =
    Steps-Jammed 10 jammed after_read (record { waits = refl; full = omega arith; stopped = refl })
      (then_step here (goes_down (reads 5) after_read.down refl))
