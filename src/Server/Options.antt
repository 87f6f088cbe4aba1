-- ===== src/Server/Options.antt =====
-- grpcserver/grpcoptions.go and NewServer of grpcserver/grpcserver.go. `F` are the functions that the interceptors
-- wrap, `O` the options of the library's server.
pub mod Order
use go_vkit.Prelude.{List, [], ◌∷◌, ◌++◌, Bytes, codes, Option, ℤ, pos, Result, ok, err}

pub record GrpcOptions {ℓ} (F O : Type ℓ) : Type ℓ where
  pub name : Bytes
  pub grpc_addr : Bytes
  pub max_recv_msg_size : ℤ
  pub max_send_msg_size : ℤ
  pub hdlr_wrappers : List (F → F)
  pub gopts : List O

pub data GrpcOption {ℓ} (F O : Type ℓ) : Type ℓ where
  grpc_wrap_handler : (F → F) → GrpcOption F O
  grpc_addr : Bytes → GrpcOption F O
  name : Bytes → GrpcOption F O
  max_send_msg_size : ℤ → GrpcOption F O
  max_recv_msg_size : ℤ → GrpcOption F O
  gopts : List O → GrpcOption F O

-- What NewServer hands to the library.
pub data ServerOption {ℓ} (O : Type ℓ) : Type ℓ where
  recv_size : ℤ → ServerOption O
  send_size : ℤ → ServerOption O
  unknown_service_handler : ServerOption O
  given : O → ServerOption O

module _ {ℓ} {O : Type ℓ} where
  -- `for _, opt := range opts { o.Gopts = append(o.Gopts, opt) }`
  append_gopts : List O → List O → List O
  append_gopts gs [] = gs
  append_gopts gs (o ∷ os) = append_gopts (gs ++ (o ∷ [])) os

  append_given : List (ServerOption O) → List O → List (ServerOption O)
  append_given gs [] = gs
  append_given gs (o ∷ os) = append_given (gs ++ (given o ∷ [])) os

module _ {ℓ} {F O : Type ℓ} where
  apply : GrpcOption F O → GrpcOptions F O → GrpcOptions F O
  unfolding append_gopts
  apply (grpc_wrap_handler w) o = record o { hdlr_wrappers = o.hdlr_wrappers ++ (w ∷ []) }
  apply (grpc_addr addr) o = record o { grpc_addr = addr }
  apply (name n) o = record o { name = n }
  apply (max_send_msg_size n) o = record o { max_send_msg_size = n }
  apply (max_recv_msg_size n) o = record o { max_recv_msg_size = n }
  apply (gopts os) o = record o { gopts = append_gopts o.gopts os }

  apply_all : List (GrpcOption F O) → GrpcOptions F O → GrpcOptions F O
  unfolding apply
  apply_all [] opt = opt
  apply_all (o ∷ opts) opt = apply_all opts (apply o opt)

  pub new_grpc_options : List (GrpcOption F O) → GrpcOptions F O
  unfolding apply_all
  new_grpc_options opts = apply_all opts (record {
    name = [];
    grpc_addr = codes "0.0.0.0:10000";
    max_recv_msg_size = pos 16777216;
    max_send_msg_size = pos 16777216;
    hdlr_wrappers = [];
    gopts = [];
  })

  pub new_server : List (GrpcOption F O) → List (ServerOption O)
  unfolding new_grpc_options append_given
  new_server opts =
      let o = new_grpc_options opts in
      append_given
        (recv_size o.max_recv_msg_size
          ∷ send_size o.max_send_msg_size
          ∷ unknown_service_handler
          ∷ [])
        o.gopts

started {ℓ} : {S L : Type ℓ} → (L → S → Option Bytes × S) → Result L × S → S
started serve (err e, s) = s
started serve (ok l, s) = let (e, t) = serve l s in t

-- Run: the server is started at its address, if that can be listened at. `S` is the state of the network,
-- `L` a listener, and an error is its text.
pub run {ℓ κ} :
    {F O : Type κ} {S L : Type ℓ} (listen : (addr : Bytes) → S → Result L × S)
    (serve : L → S → Option Bytes × S)
    → GrpcOptions F O
    → S
    → S
unfolding started
run listen serve o s = started serve (listen o.grpc_addr s)
