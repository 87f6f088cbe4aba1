-- ===== src/Server/Wrappers.antt =====
-- The interceptors: `for i := len(ws); i > 0; i-- { fn = ws[i-1](fn) }`, of grpcserver/grpcserver.go and
-- of the handlers of gate/.
use go_vkit.Prelude.{
  ℕ, zero, suc, ◌≡◌, refl, ap, ◌∙◌, List, [], ◌∷◌, Option, none, some, length, get_elem?,
}

module _ {ℓ} {F : Type ℓ} where
  -- `ws[i-1](fn)`; the loop never asks for an index outside the list.
  apply_at : Option (F → F) → F → F
  apply_at none fn = fn
  apply_at (some w) fn = w fn

  wrap_loop : List (F → F) → ℕ → F → F
  unfolding apply_at
  wrap_loop ws zero fn = fn
  wrap_loop ws (suc i) fn = wrap_loop ws i (apply_at (get_elem? ws i) fn)

  unfoldable pub wrap_all : List (F → F) → F → F
  unfolding wrap_loop
  wrap_all ws fn = wrap_loop ws (length ws) fn

  -- Every wrapper of a list is applied, the last one first.
  abbrev pub nested : List (F → F) → F → F
  nested [] fn = fn
  nested (w ∷ ws) fn = w (nested ws fn)

  wrap_loop-cons :
      (w : F → F) (ws : List (F → F)) (i : ℕ) (fn : F)
      → wrap_loop (w ∷ ws) (suc i) fn ≡ w (wrap_loop ws i fn)
  unfolding wrap_loop
  wrap_loop-cons w ws zero fn = refl
  wrap_loop-cons w ws (suc i) fn = wrap_loop-cons w ws i (apply_at (get_elem? ws i) fn)

  -- The loop makes the first wrapper of the list the outermost: it sees a call first, and its result last.
  pub wrap_all-nested : (ws : List (F → F)) (fn : F) → wrap_all ws fn ≡ nested ws fn
  unfolding wrap_all wrap_loop
  wrap_all-nested [] fn = refl
  wrap_all-nested (w ∷ ws) fn = wrap_loop-cons w ws (length ws) fn ∙ ap w (wrap_all-nested ws fn)
