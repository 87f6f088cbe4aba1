-- ===== src/Mysql/Chain/Direct.antt =====
-- A chain of methods on clients, and the same chain on gorm itself.
use go_vkit.Prelude.{ℕ, ◌<◌, ◌≤◌, ◌≡◌, refl, ◌∙◌, List, [], ◌∷◌, arith, ◌==◌, Bool-cases, inl, inr}
use go_vkit.Mysql.Chain.{
  Method, Op, Chains, World, new_client, new_on_chain, tx_of, on_chain, call, chain,
}

module _ {ℓ} {S : Type ℓ} where
  -- What a method does to the clients, where it returns the client `c` and leaves `v`: the DB of the result, the
  -- state of gorm, and every client that was there before.
  record Made (w v : World S) (c tx : ℕ) (s : S) : Type ℓ where
    holds : v.db c ≡ tx
    state : v.gorm ≡ s
    known : c < v.next
    grows : w.next ≤ v.next
    kept : (p : ℕ) → p < w.next → v.db p ≡ w.db p

  new_on_chain-Made :
      (client tx : ℕ) (w : World S)
      → client < w.next
      → let (c, v) = new_on_chain client tx w in Made w v c tx w.gorm
  unfolding new_on_chain new_client
  new_on_chain-Made client tx w h = elim (Bool-cases (w.db client == tx)) [
    | inl e ↦ rw (e) (record {
      holds = ground (arith, e);
      state = refl;
      known = h;
      grows = omega arith;
      kept = λ p l. refl;
    })
    | inr e ↦ rw (e) (record {
      holds = ground arith;
      state = refl;
      known = omega arith;
      grows = omega arith;
      kept = λ p l. ground arith;
    })
  ]

module _ {ℓ} {S V : Type ℓ} where
  -- The methods of gorm one after the other, each on the DB that the one before returned.
  unfoldable pub run : Chains S V → List (Method V) → Op S
  unfolding tx_of
  run g [] db s = (db, s)
  run g (m ∷ ms) db s = let (tx, t) = tx_of g m db s in run g ms tx t

  call-Made :
      (g : Chains S V) (m : Method V) (client : ℕ) (w : World S)
      → client < w.next
      → let (c, v) = call g m client w in
        let (tx, s) = tx_of g m (w.db client) w.gorm in Made w v c tx s
  unfolding call on_chain
  call-Made g m client w h =
      let (tx, s) = tx_of g m (w.db client) w.gorm in
      let made = new_on_chain-Made client tx (record w { gorm = s }) h in
      record {
        holds = made.holds;
        state = made.state;
        known = made.known;
        grows = made.grows;
        kept = made.kept;
      }

  chain-Made :
      (g : Chains S V) (ms : List (Method V)) (client : ℕ) (w : World S)
      → client < w.next
      → let (c, v) = chain g ms client w in
        let (tx, s) = run g ms (w.db client) w.gorm in Made w v c tx s
  unfolding chain run
  chain-Made g [] client w h = record {
    holds = refl;
    state = refl;
    known = h;
    grows = omega arith;
    kept = λ p l. refl;
  }
  chain-Made g (m ∷ ms) client w h =
      let (c, v) = call g m client w in
      let one = call-Made g m client w h in
      let rest = rw (one.holds, one.state) at (chain-Made g ms c v one.known) in
      record {
        holds = rest.holds;
        state = rest.state;
        known = rest.known;
        grows = omega (arith, one.grows, rest.grows);
        kept = λ p l. rest.kept p (omega (arith, l, one.grows)) ∙ one.kept p l;
      }

  -- A chain of methods on a client runs, on its DB, the methods of gorm that `tx_of` gives for them: the client that
  -- it returns holds the DB that these return, and gorm is left as they leave it. Every client that was
  -- there before holds the DB that it held.
  pub chain-run :
      (g : Chains S V) (ms : List (Method V)) (client : ℕ) (w : World S) (p : ℕ)
      → client < w.next
      → p < w.next
      → let (c, v) = chain g ms client w in
        ((v.db c, v.gorm) ≡ run g ms (w.db client) w.gorm) × (v.db p ≡ w.db p)
  chain-run g ms client w p h l =
      let made = chain-Made g ms client w h in (rw (made.holds, made.state) refl, made.kept p l)
