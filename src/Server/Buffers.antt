-- ===== src/Server/Buffers.antt =====
-- grpcserver/byte_pool.go: SizedBufferPool, a channel of buffers. A buffer is what it holds and the
-- capacity behind it; `Reset` keeps the capacity.
pub mod Bounds
use go_vkit.Prelude.{
  ℕ, zero, suc, ◌≤◌, ◌≡◌, refl, Bool, true, false, List, [], ◌∷◌, ◌++◌, Option, none, some, arith,
  if◌then◌else◌, ltb, length, length-append, All, All-append, Bool-cases, inl, inr, Bytes,
}

pub record Buffer : Type 0 where
  pub bytes : Bytes
  pub cap : ℕ

-- The buffers in the channel, the first out first, the channel's size, and `a`.
pub record SizedBufferPool : Type 0 where
  pub c : List Buffer
  pub size : ℕ
  pub a : ℕ

abbrev pub new_sized_buffer_pool : (size alloc : ℕ) → SizedBufferPool
new_sized_buffer_pool size alloc = record { c = []; size = size; a = alloc }

new_buffer : ℕ → Buffer
new_buffer cap = record { bytes = []; cap = cap }

take_from : SizedBufferPool → List Buffer → Buffer × SizedBufferPool
unfolding new_buffer
take_from bp [] = (new_buffer bp.a, bp)
take_from bp (b ∷ bs) = (b, record bp { c = bs })

pub get_buffer : SizedBufferPool → Buffer × SizedBufferPool
unfolding take_from
get_buffer bp = take_from bp bp.c

-- What Put keeps of a buffer.
trimmed : ℕ → Buffer → Buffer
unfolding new_buffer
trimmed a b = if ltb a b.cap then new_buffer a else record b { bytes = [] }

pub put_buffer : SizedBufferPool → Buffer → SizedBufferPool
unfolding trimmed
put_buffer bp b =
    if ltb (length bp.c) bp.size then record bp { c = bp.c ++ (trimmed bp.a b ∷ []) } else bp

-- A call of the pool: a Get, or a Put of some buffer.
pub data Use : Type 0 where
  gets : Use
  puts : Buffer → Use

pub uses : List Use → SizedBufferPool → SizedBufferPool
unfolding get_buffer put_buffer
uses [] bp = bp
uses (gets ∷ us) bp = uses us (get_buffer bp).1
uses (puts b ∷ us) bp = uses us (put_buffer bp b)
