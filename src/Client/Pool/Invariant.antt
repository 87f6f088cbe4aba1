-- ===== src/Client/Pool/Invariant.antt =====
-- What holds of a streams pool whenever its lock is free.
use go_vkit.Prelude.{
  ℕ, suc, ◌+◌, ◌≤◌, ◌≡◌, refl, true, List, [], ◌∷◌, ◌++◌, arith, ◌==◌, if◌then◌else◌,
}
use go_vkit.Client.Nodes.{Nodes, StreamsPool, head, busy}
use go_vkit.Client.Nodes.Chains.{mem}
use go_vkit.Client.Nodes.Shape.{Shape}
use go_vkit.Client.Pool.{Limits, new_streams_pool}

-- How many of the connections carry no stream.
unfoldable pub zeros : Nodes → List ℕ → ℕ
zeros n [] = 0
zeros n (x ∷ xs) = if (n x).streams == 0 then suc (zeros n xs) else zeros n xs

pub zeros-congr :
    (n m : Nodes) (xs : List ℕ)
    → ((z : ℕ) → mem z xs ≡ true → (m z).streams ≡ (n z).streams)
    → zeros m xs ≡ zeros n xs
unfolding zeros
zeros-congr n m [] e = refl
zeros-congr n m (x ∷ xs) e = ground (arith, e x, zeros-congr n m xs (λ z h. e z (ground arith)))

pub zeros-append : (n : Nodes) (xs ys : List ℕ) → zeros n (xs ++ ys) ≡ zeros n xs + zeros n ys
unfolding zeros
zeros-append n [] ys = omega arith
zeros-append n (x ∷ xs) ys = ground (arith, zeros-append n xs ys)

-- `hs` is the list behind `head` and `ls` the list behind `busy`.
pub record Inv (lim : Limits) (sp : StreamsPool) (hs ls : List ℕ) : Type 0 where
  pub shape : Shape head busy sp hs ls
  pub shared : 1 ≤ lim.max_streams
  pub idle_exact : sp.idle ≡ zeros sp.nodes hs
  pub busy_full : (z : ℕ) → mem z ls ≡ true → (sp.nodes z).streams ≡ lim.max_streams
  pub capped : (z : ℕ) → (sp.nodes z).streams ≤ lim.max_streams
  pub idle_capped : sp.idle ≤ lim.max_idle
  pub size_capped : sp.count ≤ lim.size

pub new_streams_pool-Inv : (lim : Limits) → 1 ≤ lim.max_streams → Inv lim new_streams_pool [] []
unfolding new_streams_pool zeros
new_streams_pool-Inv lim p = record {
  shared = p;
  shape = record {
    first = refl;
    second = refl;
    own_first = record { once = (refl, tt); no_null = refl };
    own_second = record { once = (refl, tt); no_null = refl };
    apart = λ z m. ground arith;
    flags = λ z. refl;
    below = λ z m. cc;
    above = omega arith;
    counted = refl;
  };
  idle_exact = refl;
  busy_full = λ z m. cc;
  capped = λ z. omega arith;
  idle_capped = omega arith;
  size_capped = omega arith;
}
