-- ===== src/Client/Nodes/Chains.antt =====
-- The lists that the pointers of pool.go make, and what removeConn and addConnAfter do to them.
use go_vkit.Prelude.{
  ℕ, ◌≡◌, refl, ap, ◌∙◌, ◌≢◌, ◌⊎◌, inl, inr, Bool, true, false, ◌||◌, List, [], ◌∷◌, ◌++◌, arith,
  ◌==◌, if◌then◌else◌, Bool-cases,
}
use go_vkit.Client.Nodes.{Nodes, null, unlink, link}

abbrev pub mem : ℕ → List ℕ → Bool
mem a [] = false
mem a (x ∷ xs) = (a == x) || mem a xs

abbrev pub Nodup : List ℕ → Type 0
Nodup [] = Unit {0}
Nodup (x ∷ xs) = (mem x xs ≡ false) × Nodup xs

pub mem-append : (a : ℕ) (xs ys : List ℕ) → mem a (xs ++ ys) ≡ (mem a xs || mem a ys)
mem-append a [] ys = refl
mem-append a (x ∷ xs) ys = ground (arith, mem-append a xs ys)

-- Where a member stands.
pub split_mem :
    (x : ℕ) (xs : List ℕ) → mem x xs ≡ true → (bs : List ℕ) × (cs : List ℕ) × (xs ≡ bs ++ x ∷ cs)
split_mem x [] m = cc
split_mem x (y ∷ xs) m = elim (Bool-cases (x == y)) [
  | inl e ↦ ([], xs, ground arith)
  | inr e ↦
      let (bs, cs, q) = split_mem x xs (ground arith) in (y ∷ bs, cs, ap (λ (l : List ℕ). y ∷ l) q)
]

pub mem_ne : (z w : ℕ) (xs : List ℕ) → mem z xs ≡ true → mem w xs ≡ false → z ≢ w
mem_ne z w xs h k e = cc (ap (λ (t : ℕ). mem t xs) e)

-- From `s` the `next` pointers lead through `xs` to nil, and the `pre` pointers lead back.
abbrev pub Chain : Nodes → ℕ → List ℕ → Type 0
Chain n s [] = (n s).next ≡ null
Chain n s (x ∷ xs) = ((n s).next ≡ x) × ((n x).pre ≡ s) × Chain n x xs

-- A chain survives any change that spares its pointers.
pub Chain-frame :
    (n m : Nodes) (s : ℕ) (xs : List ℕ)
    → (m s).next ≡ (n s).next
    → ((z : ℕ) → mem z xs ≡ true → ((m z).next ≡ (n z).next) × ((m z).pre ≡ (n z).pre))
    → Chain n s xs
    → Chain m s xs
Chain-frame n m s [] e same c = e ∙ c
Chain-frame n m s (x ∷ xs) e same (a, b, c) = (
  e ∙ a,
  (same x (ground arith)).1 ∙ b,
  Chain-frame n m x xs (same x (ground arith)).0 (λ z h. same z (ground arith)) c,
)

unlink-next :
    (n : Nodes) (x z : ℕ)
    → z ≢ x
    → z ≢ null
    → (unlink x n z).next ≡ (if (n x).pre == z then (n x).next else (n z).next)
unfolding unlink
unlink-next n x z h k = ground arith

unlink-pre :
    (n : Nodes) (x z : ℕ)
    → z ≢ x
    → z ≢ null
    → (unlink x n z).pre ≡ (if (n x).next == z then (n x).pre else (n z).pre)
unfolding unlink
unlink-pre n x z h k = ground arith

pub unlink-streams : (n : Nodes) (x z : ℕ) → (unlink x n z).streams ≡ (n z).streams
unfolding unlink
unlink-streams n x z = ground arith

pub unlink-created : (n : Nodes) (x z : ℕ) → (unlink x n z).created ≡ (n z).created
unfolding unlink
unlink-created n x z = ground arith

pub unlink-in_list :
    (n : Nodes) (x z : ℕ) → (unlink x n z).in_list ≡ (if z == x then false else (n z).in_list)
unfolding unlink
unlink-in_list n x z = ground arith

pre_mem :
    (n : Nodes) (s : ℕ) (bs : List ℕ) (x : ℕ) (cs : List ℕ)
    → Chain n s (bs ++ x ∷ cs)
    → mem (n x).pre (s ∷ bs) ≡ true
pre_mem n s [] x cs c = ground arith
pre_mem n s (a ∷ bs) x cs c = ground (arith, pre_mem n a bs x cs c.2)

next_mem :
    (n : Nodes) (s : ℕ) (bs : List ℕ) (x : ℕ) (cs : List ℕ)
    → Chain n s (bs ++ x ∷ cs)
    → ((n x).next ≡ null) ⊎ (mem (n x).next cs ≡ true)
next_mem n s [] x [] c = inl c.2
next_mem n s [] x (y ∷ cs) c = inr (ground arith)
next_mem n s (a ∷ bs) x cs c = next_mem n a bs x cs c.2

-- What is said of the pointers of a list with its sentinel `s`.
pub record Owns (s : ℕ) (xs : List ℕ) : Type 0 where
  pub once : Nodup (s ∷ xs)
  pub no_null : mem null (s ∷ xs) ≡ false

Owns-tail : (s x : ℕ) (xs : List ℕ) → Owns s (x ∷ xs) → Owns x xs
Owns-tail s x xs o = record { once = o.once.1; no_null = ground arith }

-- removeConn takes a connection out of its list, wherever it stands.
pub Chain-unlink :
    (n : Nodes) (s : ℕ) (bs : List ℕ) (x : ℕ) (cs : List ℕ)
    → Owns s (bs ++ x ∷ cs)
    → Chain n s (bs ++ x ∷ cs)
    → Chain (unlink x n) s (bs ++ cs)
Chain-unlink n s [] x [] o c = ground (arith, unlink-next n x s)
Chain-unlink n s [] x (y ∷ cs) o c = (
  ground (arith, unlink-next n x s),
  ground (arith, unlink-pre n x y),
  Chain-frame n (unlink x n) y cs (ground (arith, unlink-next n x y))
      (λ z h. (
        ground (arith, unlink-next n x z, mem_ne z x cs h, mem_ne z s cs h, mem_ne z null cs h),
        ground (arith, unlink-pre n x z, mem_ne z x cs h, mem_ne z y cs h, mem_ne z null cs h),
      ))
      c.2.2,
)
Chain-unlink n s (a ∷ bs) x cs o c = (
  ground (
    arith,
    unlink-next n x s,
    pre_mem n a bs x cs c.2,
    mem-append s bs (x ∷ cs),
    mem_ne (n x).pre s (a ∷ bs),
  ),
  ground (
    arith,
    unlink-pre n x a,
    next_mem n a bs x cs c.2,
    mem-append a bs (x ∷ cs),
    mem_ne (n x).next a cs,
  ),
  Chain-unlink n a bs x cs (Owns-tail s a (bs ++ x ∷ cs) o) c.2,
)

link-next :
    (n : Nodes) (x s z : ℕ)
    → x ≢ s
    → (link x s n z).next ≡ (if z == s then x else if z == x then (n s).next else (n z).next)
unfolding link
link-next n x s z h = ground arith

link-pre :
    (n : Nodes) (x s z : ℕ)
    → x ≢ s
    → z ≢ null
    → (n s).next ≢ x
    → (link x s n z).pre ≡ (if z == x then s else if z == (n s).next then x else (n z).pre)
unfolding link
link-pre n x s z h k e = ground arith

pub link-streams : (n : Nodes) (x s z : ℕ) → (link x s n z).streams ≡ (n z).streams
unfolding link
link-streams n x s z = ground arith

pub link-created : (n : Nodes) (x s z : ℕ) → (link x s n z).created ≡ (n z).created
unfolding link
link-created n x s z = ground arith

pub link-in_list :
    (n : Nodes) (x s z : ℕ) → (link x s n z).in_list ≡ (if z == x then true else (n z).in_list)
unfolding link
link-in_list n x s z = ground arith

-- addConnAfter puts a connection that is in no list at the front of the list with sentinel `s`.
pub Chain-link :
    (n : Nodes) (s x : ℕ) (xs : List ℕ)
    → Owns s (x ∷ xs)
    → Chain n s xs
    → Chain (link x s n) s (x ∷ xs)
Chain-link n s x [] o c = ground (arith, link-next n x s s, link-next n x s x, link-pre n x s x)
Chain-link n s x (y ∷ xs) o c = (
  ground (arith, link-next n x s s),
  ground (arith, link-pre n x s x),
  (
    ground (arith, link-next n x s x),
    ground (arith, link-pre n x s y),
    Chain-frame n (link x s n) y xs (ground (arith, link-next n x s y))
        (λ z h. (
          ground (arith, link-next n x s z, mem_ne z x xs h, mem_ne z s xs h, mem_ne z null xs h),
          ground (arith, link-pre n x s z, mem_ne z x xs h, mem_ne z y xs h, mem_ne z null xs h),
        ))
        c.2,
  ),
)

-- Neither touches a list that holds none of its pointers.
pub Chain-unlink_other :
    (n : Nodes) (s : ℕ) (bs : List ℕ) (x : ℕ) (cs : List ℕ) (t : ℕ) (xs : List ℕ)
    → Owns s (bs ++ x ∷ cs)
    → Owns t xs
    → ((z : ℕ) → mem z (t ∷ xs) ≡ true → mem z (s ∷ bs ++ x ∷ cs) ≡ false)
    → Chain n s (bs ++ x ∷ cs)
    → Chain n t xs
    → Chain (unlink x n) t xs
Chain-unlink_other n s bs x cs t xs o p apart c d =
    Chain-frame n (unlink x n) t xs (keeps t (ground arith)).0 (λ z h. keeps z (ground arith)) d
  where
    keeps :
        (z : ℕ)
        → mem z (t ∷ xs) ≡ true
        → ((unlink x n z).next ≡ (n z).next) × ((unlink x n z).pre ≡ (n z).pre)
    keeps z h = (
      ground (
        arith,
        unlink-next n x z,
        pre_mem n s bs x cs c,
        mem-append (n x).pre bs (x ∷ cs),
        mem-append z bs (x ∷ cs),
        mem_ne (n x).pre z (s ∷ bs ++ x ∷ cs),
        mem_ne z null (t ∷ xs) h p.no_null,
        apart z h,
      ),
      ground (
        arith,
        unlink-pre n x z,
        next_mem n s bs x cs c,
        mem-append (n x).next bs (x ∷ cs),
        mem-append z bs (x ∷ cs),
        mem_ne (n x).next z (s ∷ bs ++ x ∷ cs),
        mem_ne z null (t ∷ xs) h p.no_null,
        apart z h,
      ),
    )

-- What follows the sentinel.
next_cases :
    (n : Nodes) (s : ℕ) (xs : List ℕ)
    → Chain n s xs
    → ((n s).next ≡ null) ⊎ (mem (n s).next xs ≡ true)
next_cases n s [] c = inl c
next_cases n s (x ∷ xs) c = inr (ground arith)

pub Chain-link_other :
    (n : Nodes) (s x : ℕ) (ys : List ℕ) (t : ℕ) (xs : List ℕ)
    → Owns s (x ∷ ys)
    → Owns t xs
    → ((z : ℕ) → mem z (t ∷ xs) ≡ true → mem z (s ∷ x ∷ ys) ≡ false)
    → Chain n s ys
    → Chain n t xs
    → Chain (link x s n) t xs
Chain-link_other n s x ys t xs o p apart c d =
    Chain-frame n (link x s n) t xs (keeps t (ground arith)).0 (λ z h. keeps z (ground arith)) d
  where
    keeps :
        (z : ℕ)
        → mem z (t ∷ xs) ≡ true
        → ((link x s n z).next ≡ (n z).next) × ((link x s n z).pre ≡ (n z).pre)
    keeps z h = (
      ground (arith, link-next n x s z, apart z h),
      ground (
        arith,
        link-pre n x s z,
        next_cases n s ys c,
        mem_ne (n s).next z ys,
        mem_ne (n s).next x ys,
        mem_ne z null (t ∷ xs) h p.no_null,
        apart z h,
      ),
    )
