-- ===== src/Server/Buffers/Bounds.antt =====
-- What the pool of buffers keeps, and what it hands out.
use go_vkit.Prelude.{
  ℕ, ◌≤◌, ◌≡◌, refl, List, [], ◌∷◌, arith, ltb, length, length-append, All, All-append, Bool-cases,
  inl, inr,
}
use go_vkit.Server.Buffers.{
  Buffer, SizedBufferPool, new_sized_buffer_pool, new_buffer, take_from, get_buffer, trimmed,
  put_buffer, Use, gets, puts, uses,
}

-- A buffer with nothing in it, no larger than `a`.
Fresh : ℕ → Buffer → Type 0
Fresh a b = (b.bytes ≡ []) × (b.cap ≤ a)

record Bounded (size a : ℕ) (bp : SizedBufferPool) : Type 0 where
  has_size : bp.size ≡ size
  has_a : bp.a ≡ a
  fits : length bp.c ≤ size
  fresh : All (Fresh a) bp.c

trimmed-Fresh : (a : ℕ) (b : Buffer) → Fresh a (trimmed a b)
unfolding trimmed Fresh
trimmed-Fresh a b = (ground arith, ground arith)

put_buffer-Bounded :
    (size a : ℕ) (bp : SizedBufferPool) (b : Buffer)
    → Bounded size a bp
    → Bounded size a (put_buffer bp b)
unfolding put_buffer
put_buffer-Bounded size a bp b w = elim (Bool-cases (ltb (length bp.c) bp.size)) [
  | inl room ↦ rw (room) (record {
    has_size = w.has_size;
    has_a = w.has_a;
    fits = ground (arith, length-append bp.c (trimmed bp.a b ∷ []), w.has_size);
    fresh = All-append (Fresh a) bp.c _ w.fresh (rw (w.has_a) (trimmed-Fresh a b), tt);
  })
  | inr full ↦ rw (full) w
]

get_buffer-Bounded :
    (size a : ℕ) (bp : SizedBufferPool)
    → Bounded size a bp
    → Fresh a (get_buffer bp).0 × Bounded size a (get_buffer bp).1
unfolding get_buffer take_from new_buffer Fresh
get_buffer-Bounded size a bp w = go bp.c refl w.fits w.fresh
  where
    go :
        (bs : List Buffer)
        → bp.c ≡ bs
        → length bs ≤ size
        → All (Fresh a) bs
        → Fresh a (take_from bp bs).0 × Bounded size a (take_from bp bs).1
    go [] e f h = (rw (w.has_a) (refl, omega arith), w)
    go (b ∷ bs) e f (fb, h) =
        (fb, record { has_size = w.has_size; has_a = w.has_a; fits = omega (arith, f); fresh = h })

uses-Bounded :
    (size a : ℕ) (us : List Use) (bp : SizedBufferPool)
    → Bounded size a bp
    → Bounded size a (uses us bp)
unfolding uses
uses-Bounded size a [] bp w = w
uses-Bounded size a (gets ∷ us) bp w = uses-Bounded size a us _ (get_buffer-Bounded size a bp w).1
uses-Bounded size a (puts b ∷ us) bp w = uses-Bounded size a us _ (put_buffer-Bounded size a bp b w)

-- After any Gets and Puts on a new pool the channel holds at most `size` buffers, and the next Get returns
-- an empty buffer of at most `alloc` bytes of capacity.
pub get_buffer-Fresh :
    (size alloc : ℕ) (us : List Use)
    → let bp = uses us (new_sized_buffer_pool size alloc) in
      (length bp.c ≤ size) × ((get_buffer bp).0.bytes ≡ []) × ((get_buffer bp).0.cap ≤ alloc)
unfolding Fresh
get_buffer-Fresh size alloc us =
    let w =
      uses-Bounded size alloc us (new_sized_buffer_pool size alloc)
        (record { has_size = refl; has_a = refl; fits = omega arith; fresh = tt }) in
    let (e, c) = (get_buffer-Bounded size alloc _ w).0 in (w.fits, e, c)
