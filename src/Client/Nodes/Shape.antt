-- ===== src/Client/Nodes/Shape.antt =====
-- The two lists of a streams pool, with sentinels `s` and `t`, and what the operations of pool.go do
-- to them.
use go_vkit.Prelude.{
  ℕ, ◌+◌, ◌≤◌, ◌<◌, ◌≡◌, refl, ap, ◌∙◌, ◌≢◌, true, false, ◌||◌, List, [], ◌∷◌, ◌++◌, arith, ◌==◌,
  if◌then◌else◌, length, length-append,
}
use go_vkit.Client.Nodes.{Nodes, StreamsPool, null, remove_conn, add_conn_after}
use go_vkit.Client.Nodes.Chains.{
  mem, Nodup, mem-append, mem_ne, Chain, Chain-frame, Owns, Chain-unlink, Chain-link,
  Chain-unlink_other, Chain-link_other, unlink-in_list, link-in_list,
}

-- `xs` and `ys` are the lists behind `s` and `t`: they share no connection, the flag `in` says which
-- connections they hold, and `count` how many.
pub record Shape (s t : ℕ) (sp : StreamsPool) (xs ys : List ℕ) : Type 0 where
  pub first : Chain sp.nodes s xs
  pub second : Chain sp.nodes t ys
  pub own_first : Owns s xs
  pub own_second : Owns t ys
  pub apart : (z : ℕ) → mem z (t ∷ ys) ≡ true → mem z (s ∷ xs) ≡ false
  pub flags : (z : ℕ) → (sp.nodes z).in_list ≡ (mem z xs || mem z ys)
  pub below : (z : ℕ) → (mem z xs || mem z ys) ≡ true → z < sp.fresh
  pub above : (s < sp.fresh) × (t < sp.fresh)
  pub counted : sp.count ≡ length xs + length ys

module _ {s t : ℕ} {sp : StreamsPool} {xs ys : List ℕ} where
  pub Shape-swap : Shape s t sp xs ys → Shape t s sp ys xs
  Shape-swap h = record {
    first = h.second;
    second = h.first;
    own_first = h.own_second;
    own_second = h.own_first;
    apart = λ z m. ground (arith, h.apart z);
    flags = λ z. ground (arith, h.flags z);
    below = λ z m. h.below z (ground arith);
    above = (h.above.1, h.above.0);
    counted = omega (arith, h.counted);
  }

  -- A step that leaves the pointers, the flags and the counter alone leaves the lists alone.
  pub Shape-frame :
      (q : StreamsPool)
      → ((z : ℕ)
          → ((q.nodes z).next ≡ (sp.nodes z).next)
            × ((q.nodes z).pre ≡ (sp.nodes z).pre)
            × ((q.nodes z).in_list ≡ (sp.nodes z).in_list))
      → sp.fresh ≤ q.fresh
      → q.count ≡ sp.count
      → Shape s t sp xs ys
      → Shape s t q xs ys
  Shape-frame q same f e h = record {
    first = Chain-frame sp.nodes q.nodes s xs (same s).0 (λ z _. ((same z).0, (same z).1)) h.first;
    second =
        Chain-frame sp.nodes q.nodes t ys (same t).0 (λ z _. ((same z).0, (same z).1)) h.second;
    own_first = h.own_first;
    own_second = h.own_second;
    apart = h.apart;
    flags = λ z. (same z).2 ∙ h.flags z;
    below = λ z m. omega (arith, h.below z m);
    above = omega (arith, h.above);
    counted = e ∙ h.counted;
  }

-- The same for a step that only writes to memory that was not allocated.
pub Shape-grow :
    (s t : ℕ) (sp q : StreamsPool) (xs ys : List ℕ)
    → ((z : ℕ)
        → z < sp.fresh
        → ((q.nodes z).next ≡ (sp.nodes z).next) × ((q.nodes z).pre ≡ (sp.nodes z).pre))
    → ((z : ℕ) → (q.nodes z).in_list ≡ (sp.nodes z).in_list)
    → sp.fresh ≤ q.fresh
    → q.count ≡ sp.count
    → Shape s t sp xs ys
    → Shape s t q xs ys
Shape-grow s t sp q xs ys same flag f e h = record {
  first =
      Chain-frame sp.nodes q.nodes s xs (same s h.above.0).0
        (λ z m. same z (h.below z (ground arith))) h.first;
  second =
      Chain-frame sp.nodes q.nodes t ys (same t h.above.1).0
        (λ z m. same z (h.below z (ground arith))) h.second;
  own_first = h.own_first;
  own_second = h.own_second;
  apart = h.apart;
  flags = λ z. flag z ∙ h.flags z;
  below = λ z m. omega (arith, h.below z m);
  above = omega (arith, h.above);
  counted = e ∙ h.counted;
}

Nodup-remove : (bs : List ℕ) (x : ℕ) (cs : List ℕ) → Nodup (bs ++ x ∷ cs) → Nodup (bs ++ cs)
Nodup-remove [] x cs d = d.1
Nodup-remove (b ∷ bs) x cs d =
    (ground (arith, mem-append b bs (x ∷ cs), mem-append b bs cs), Nodup-remove bs x cs d.1)

mem-remove :
    (z : ℕ) (bs : List ℕ) (x : ℕ) (cs : List ℕ)
    → Nodup (bs ++ x ∷ cs)
    → mem z (bs ++ cs) ≡ (if z == x then false else mem z (bs ++ x ∷ cs))
mem-remove z [] x cs d = ground (arith, ap (λ (a : ℕ). mem a cs))
mem-remove z (b ∷ bs) x cs d = ground (arith, mem-remove z bs x cs d.1, mem-append b bs (x ∷ cs))

Owns-remove :
    (s : ℕ) (bs : List ℕ) (x : ℕ) (cs : List ℕ) → Owns s (bs ++ x ∷ cs) → Owns s (bs ++ cs)
Owns-remove s bs x cs o = record {
  once = Nodup-remove (s ∷ bs) x cs o.once;
  no_null = ground (arith, mem-append null bs cs, mem-append null bs (x ∷ cs));
}

-- Where the nodes hold two lists, removeConn takes a connection of the first out of it, and leaves the order of
-- the others, the second list and the counter right.
pub remove_conn-Shape :
    (s t : ℕ) (sp : StreamsPool) (bs : List ℕ) (x : ℕ) (cs ys : List ℕ)
    → Shape s t sp (bs ++ x ∷ cs) ys
    → Shape s t (remove_conn x sp) (bs ++ cs) ys
unfolding remove_conn
remove_conn-Shape s t sp bs x cs ys h = record {
  first = Chain-unlink sp.nodes s bs x cs h.own_first h.first;
  second =
      Chain-unlink_other sp.nodes s bs x cs t ys h.own_first h.own_second h.apart h.first h.second;
  own_first = Owns-remove s bs x cs h.own_first;
  own_second = h.own_second;
  apart = λ z m. ground (arith, h.apart z m, mem-append z bs cs, mem-append z bs (x ∷ cs));
  flags = λ z. ground (
    arith,
    unlink-in_list sp.nodes x z,
    h.flags z,
    mem-remove z bs x cs h.own_first.once.1,
    h.apart z,
    mem-append z bs (x ∷ cs),
  );
  below = λ z m. h.below z (ground (arith, mem-append z bs cs, mem-append z bs (x ∷ cs)));
  above = h.above;
  counted = omega (arith, h.counted, length-append bs (x ∷ cs), length-append bs cs);
}

-- Where the nodes hold two lists, addConnAfter puts a connection that is in neither, at an address that was
-- handed out and is no sentinel, at the front of the first.
pub add_conn_after-Shape :
    (s t : ℕ) (sp : StreamsPool) (x : ℕ) (xs ys : List ℕ)
    → x ≢ null
    → x ≢ s
    → x ≢ t
    → x < sp.fresh
    → (sp.nodes x).in_list ≡ false
    → Shape s t sp xs ys
    → Shape s t (add_conn_after x s sp) (x ∷ xs) ys
unfolding add_conn_after
add_conn_after-Shape s t sp x xs ys e f g b out h = record {
  first = Chain-link sp.nodes s x xs own h.first;
  second = Chain-link_other sp.nodes s x xs t ys own h.own_second apart' h.first h.second;
  own_first = own;
  own_second = h.own_second;
  apart = apart';
  flags = λ z. ground (arith, link-in_list sp.nodes x s z, h.flags z);
  below = λ z m. ground (arith, h.below z);
  above = h.above;
  counted = omega (arith, h.counted);
}
  where
    own : Owns s (x ∷ xs)
    own = record {
      once = ground (arith, h.own_first, h.flags x);
      no_null = ground (arith, h.own_first);
    }

    apart' : (z : ℕ) → mem z (t ∷ ys) ≡ true → mem z (s ∷ x ∷ xs) ≡ false
    apart' z m = ground (arith, h.apart z m, h.flags x, mem_ne z x ys)

Nodup-middle :
    (bs : List ℕ) (x : ℕ) (cs : List ℕ)
    → Nodup (bs ++ x ∷ cs)
    → (mem x bs ≡ false) × (mem x cs ≡ false)
Nodup-middle [] x cs d = (refl, d.0)
Nodup-middle (b ∷ bs) x cs d = ground (arith, Nodup-middle bs x cs d.1, mem-append b bs (x ∷ cs))

-- What is known of a connection of the first list.
pub record Middle (s t : ℕ) (sp : StreamsPool) (bs : List ℕ) (x : ℕ) (cs ys : List ℕ) : Type 0 where
  pub not_null : x ≢ null
  pub not_first : x ≢ s
  pub not_second : x ≢ t
  pub not_before : mem x bs ≡ false
  pub not_behind : mem x cs ≡ false
  pub not_other : mem x ys ≡ false
  pub fresh : x < sp.fresh
  pub listed : (sp.nodes x).in_list ≡ true

pub Shape-Middle :
    (s t : ℕ) (sp : StreamsPool) (bs : List ℕ) (x : ℕ) (cs ys : List ℕ)
    → Shape s t sp (bs ++ x ∷ cs) ys
    → Middle s t sp bs x cs ys
Shape-Middle s t sp bs x cs ys h =
    let (e, f) = Nodup-middle bs x cs h.own_first.once.1 in
    let here = mem-append x bs (x ∷ cs) in
    record {
      not_null = ground (arith, h.own_first, mem-append null bs (x ∷ cs));
      not_first = ground (arith, h.own_first, mem-append s bs (x ∷ cs));
      not_second = ground (arith, h.apart t, mem-append t bs (x ∷ cs));
      not_before = e;
      not_behind = f;
      not_other = ground (arith, h.apart x, here);
      fresh = h.below x (ground (arith, here));
      listed = ground (arith, h.flags x, here);
    }

unfoldable pub first_or_null : List ℕ → ℕ
first_or_null [] = null
first_or_null (x ∷ xs) = x

pub next-sentinel : (n : Nodes) (s : ℕ) (xs : List ℕ) → Chain n s xs → (n s).next ≡ first_or_null xs
unfolding first_or_null
next-sentinel n s [] c = c
next-sentinel n s (x ∷ xs) c = c.0

-- `conn.next` is the next connection of the list, or nil at its end.
pub next-middle :
    (n : Nodes) (s : ℕ) (bs : List ℕ) (x : ℕ) (cs : List ℕ)
    → Chain n s (bs ++ x ∷ cs)
    → (n x).next ≡ first_or_null cs
unfolding first_or_null
next-middle n s [] x [] c = c.2
next-middle n s [] x (y ∷ cs) c = c.2.0
next-middle n s (b ∷ bs) x cs c = next-middle n b bs x cs c.2

-- removeConn and then addConnAfter: a connection of the first list becomes the front of the second.
pub move-Shape :
    (s t : ℕ) (sp : StreamsPool) (bs : List ℕ) (x : ℕ) (cs ys : List ℕ)
    → Shape s t sp (bs ++ x ∷ cs) ys
    → Shape s t (add_conn_after x t (remove_conn x sp)) (bs ++ cs) (x ∷ ys)
unfolding remove_conn
move-Shape s t sp bs x cs ys h =
    let m = Shape-Middle s t sp bs x cs ys h in
    Shape-swap (
      add_conn_after-Shape t s (remove_conn x sp) x ys (bs ++ cs) m.not_null m.not_second
        m.not_first m.fresh (ground (arith, unlink-in_list sp.nodes x x))
        (Shape-swap (remove_conn-Shape s t sp bs x cs ys h)))
