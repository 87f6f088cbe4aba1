-- ===== src/Server/Options/Order.antt =====
-- The order of the interceptors that options name.
use go_vkit.Prelude.{◌≡◌, sym, ap, ◌∙◌, List, [], ◌∷◌, ◌++◌, append_assoc, append-nil}
use go_vkit.Server.Wrappers.{wrap_all, nested, wrap_all-nested}
use go_vkit.Server.Options.{
  GrpcOptions, GrpcOption, grpc_wrap_handler, grpc_addr, name, max_send_msg_size, max_recv_msg_size,
  gopts, apply, apply_all, new_grpc_options,
}

module _ {ℓ} {F O : Type ℓ} where
  -- The interceptors among the options.
  abbrev pub wrappers_in : List (GrpcOption F O) → List (F → F)
  wrappers_in [] = []
  wrappers_in (grpc_wrap_handler w ∷ opts) = w ∷ wrappers_in opts
  wrappers_in (grpc_addr a ∷ opts) = wrappers_in opts
  wrappers_in (name n ∷ opts) = wrappers_in opts
  wrappers_in (max_send_msg_size n ∷ opts) = wrappers_in opts
  wrappers_in (max_recv_msg_size n ∷ opts) = wrappers_in opts
  wrappers_in (gopts os ∷ opts) = wrappers_in opts

  apply_all-wrappers_in :
      (opts : List (GrpcOption F O)) (o : GrpcOptions F O)
      → (apply_all opts o).hdlr_wrappers ≡ o.hdlr_wrappers ++ wrappers_in opts
  unfolding apply_all apply
  apply_all-wrappers_in [] o = sym (append-nil o.hdlr_wrappers)
  apply_all-wrappers_in (grpc_wrap_handler w ∷ opts) o =
      apply_all-wrappers_in opts (record o { hdlr_wrappers = o.hdlr_wrappers ++ (w ∷ []) })
      ∙ append_assoc o.hdlr_wrappers (w ∷ []) (wrappers_in opts)
  apply_all-wrappers_in (grpc_addr a ∷ opts) o = apply_all-wrappers_in opts (apply (grpc_addr a) o)
  apply_all-wrappers_in (name n ∷ opts) o = apply_all-wrappers_in opts (apply (name n) o)
  apply_all-wrappers_in (max_send_msg_size n ∷ opts) o =
      apply_all-wrappers_in opts (apply (max_send_msg_size n) o)
  apply_all-wrappers_in (max_recv_msg_size n ∷ opts) o =
      apply_all-wrappers_in opts (apply (max_recv_msg_size n) o)
  apply_all-wrappers_in (gopts os ∷ opts) o = apply_all-wrappers_in opts (apply (gopts os) o)

-- A server that was made with options runs the interceptors among them in their order, whatever other options
-- stand between them: the first one is the outermost, sees a call first, and its result last.
pub wrap_all-wrappers_in {ℓ} :
    {F O : Type ℓ} (opts : List (GrpcOption F O)) (fn : F)
    → wrap_all (new_grpc_options opts).hdlr_wrappers fn ≡ nested (wrappers_in opts) fn
unfolding new_grpc_options
wrap_all-wrappers_in opts fn =
    ap (λ ws. wrap_all ws fn) (apply_all-wrappers_in opts _) ∙ wrap_all-nested (wrappers_in opts) fn
