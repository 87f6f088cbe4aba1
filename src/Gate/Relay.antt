-- ===== src/Gate/Relay.antt =====
-- readsAndWrites of gate/streamhandler.go: four goroutines carry messages between a WebSocket and a gRPC
-- stream, over two channels of ten messages. An action is what one goroutine does between two points at
-- which it can wait; each may also end at the head of its loop, since its select, a message that it reads
-- or a context can make it return there.
pub mod Order
pub mod Stuck
use go_vkit.Prelude.{
  ◌≡◌, ℕ, suc, Bool, true, false, ◌++◌, List, [], ◌∷◌, Option, none, some, ltb, if◌then◌else◌,
  length,
}

-- A goroutine that reads: at the head of its loop, with a message for the channel, or returned.
pub data Reader {ℓ} (M : Type ℓ) : Type ℓ where
  ready : Reader M
  holding : M → Reader M
  ended : Reader M

-- One direction: the messages that were read of the source, the goroutine that reads, the channel, the
-- messages that were handed to the sink, and whether the goroutine that writes still runs.
pub record Pipe {ℓ} (M : Type ℓ) : Type ℓ where
  pub taken : List M
  pub reader : Reader M
  pub channel : List M
  pub given : List M
  pub writing : Bool

abbrev pub capacity : ℕ
capacity = 10

pub data Action {ℓ} (M : Type ℓ) : Type ℓ where
  reads : M → Action M
  pushes : Action M
  read_ends : Action M
  writes : (fails : Bool) → Action M
  write_ends : Action M

abbrev pub new_pipe {ℓ} : {M : Type ℓ} → Pipe M
new_pipe = record { taken = []; reader = ready; channel = []; given = []; writing = true }

module _ {ℓ} {M : Type ℓ} where
  -- A message is read, or the goroutine returns.
  read_message : M → Reader M → Pipe M → Option (Pipe M)
  read_message m ready p = some (record p { reader = holding m; taken = p.taken ++ (m ∷ []) })
  read_message m (holding n) p = none
  read_message m ended p = none

  -- The send to the channel, which waits while that is full.
  push : Reader M → Pipe M → Option (Pipe M)
  push ready p = none
  push (holding m) p =
      if ltb (length p.channel) capacity
      then some (record p { reader = ready; channel = p.channel ++ (m ∷ []) })
      else none
  push ended p = none

  end_read : Reader M → Pipe M → Option (Pipe M)
  end_read ready p = some (record p { reader = ended })
  end_read (holding m) p = none
  end_read ended p = none

  -- The receive from the channel and the write, which ends the goroutine where it fails.
  write_message : Bool → List M → Pipe M → Option (Pipe M)
  write_message fails [] p = none
  write_message fails (m ∷ ms) p =
      if p.writing
      then some (record p {
        channel = ms;
        given = p.given ++ (m ∷ []);
        writing = if fails then false else true;
      })
      else none

  -- `none` where the goroutine cannot take the action.
  unfoldable pub act : Action M → Pipe M → Option (Pipe M)
  unfolding read_message push end_read write_message
  act (reads m) p = read_message m p.reader p
  act pushes p = push p.reader p
  act read_ends p = end_read p.reader p
  act (writes fails) p = write_message fails p.channel p
  act write_ends p = if p.writing then some (record p { writing = false }) else none

  -- Whether the goroutine returns with the action, and calls Close.
  unfoldable pub returns : Action M → Bool
  returns (reads m) = false
  returns pushes = false
  returns read_ends = true
  returns (writes fails) = fails
  returns write_ends = true

-- The two directions, `isClose`, and how often the stream was closed.
pub record StreamContext {ℓ} (M N : Type ℓ) : Type ℓ where
  pub up : Pipe M
  pub down : Pipe N
  pub is_close : Bool
  pub closes : ℕ

abbrev pub new_context {ℓ} : {M N : Type ℓ} → StreamContext M N
new_context = record { up = new_pipe; down = new_pipe; is_close = false; closes = 0 }

module _ {ℓ} {M N : Type ℓ} where
  unfoldable pub close : StreamContext M N → StreamContext M N
  close sc = if sc.is_close then sc else record sc { is_close = true; closes = suc sc.closes }

  unfoldable pub closed_if : Bool → StreamContext M N → StreamContext M N
  unfolding close
  closed_if b sc = if b then close sc else sc

  -- One action of one goroutine.
  pub data Step : StreamContext M N → StreamContext M N → Type ℓ where
    goes_up :
        {sc : StreamContext M N} (a : Action M) (p : Pipe M)
        → act a sc.up ≡ some p
        → Step sc (closed_if (returns a) (record sc { up = p }))
    goes_down :
        {sc : StreamContext M N} (a : Action N) (p : Pipe N)
        → act a sc.down ≡ some p
        → Step sc (closed_if (returns a) (record sc { down = p }))

  pub data Steps (sc : StreamContext M N) : StreamContext M N → Type ℓ where
    here : Steps sc sc
    then_step : {b c : StreamContext M N} → Steps sc b → Step b c → Steps sc c
