-- ===== src/Client/Stream/Released.antt =====
-- What a stream tells the pool of its connection.
use go_vkit.Prelude.{
  ◌≡◌, refl, Bool, true, false, List, [], ◌∷◌, Option, none, some, arith, if◌then◌else◌, length,
  All,
}
use go_vkit.Client.Stream.{Stream, new_stream, Call, sends, recvs, closes, call, calls}

-- The callback has been called once if the stream is closed, and not if it is open.
abbrev pub Once {ℓ} : {E : Type ℓ} → Stream E → Type 0
Once s = length s.released ≡ (if s.closed then 1 else 0)

module _ {ℓ} {E : Type ℓ} (is_eof : E → Bool) where
  call-Once : (c : Call E) (s : Stream E) → Once s → Once (call is_eof c s)
  unfolding call
  call-Once (sends none) s h = h
  call-Once (sends (some e)) s h = h
  call-Once (recvs none c) s h = h
  call-Once (recvs (some e) c) s h = ground (arith, h)
  call-Once (closes c) s h = ground (arith, h)

  calls-keep_Once : (cs : List (Call E)) (s : Stream E) → Once s → Once (calls is_eof cs s)
  unfolding calls
  calls-keep_Once [] s h = h
  calls-keep_Once (c ∷ cs) s h = calls-keep_Once cs (call is_eof c s) (call-Once c s h)

-- However its methods are called, a stream gives its connection back once, when it is first closed.
pub calls-Once {ℓ} :
    {E : Type ℓ} (is_eof : E → Bool) (cs : List (Call E)) → Once (calls is_eof cs new_stream)
calls-Once is_eof cs = calls-keep_Once is_eof cs new_stream refl

-- A call that is no Send that fails.
abbrev pub Quiet {ℓ} : {E : Type ℓ} → Call E → Type 0
Quiet (sends none) = Unit {0}
Quiet (sends (some e)) = ⊥
Quiet (recvs m c) = Unit {0}
Quiet (closes c) = Unit {0}

-- No error is known, and none was reported.
Unreported {ℓ} : {E : Type ℓ} → Stream E → Type ℓ
Unreported {E = E} s = (s.err ≡ none) × All (λ (e : Option E). e ≡ none) s.released

module _ {ℓ} {E : Type ℓ} (is_eof : E → Bool) where
  close-Unreported :
      (b : Bool) (s : Stream E)
      → s.closed ≡ b
      → (c : Option E) → Unreported s
      → Unreported (call is_eof (closes c) s)
  unfolding call Unreported
  close-Unreported true s q c (n, a) = rw (q) (n, a)
  close-Unreported false s q c (n, a) = rw (q) (n, (n, a))

  call-Unreported :
      (c : Call E) (s : Stream E) → Quiet c → Unreported s → Unreported (call is_eof c s)
  unfolding call Unreported
  call-Unreported (sends none) s q u = u
  call-Unreported (sends (some e)) s q u = absurd q
  call-Unreported (recvs none c) s q (n, a) = (refl, a)
  call-Unreported (recvs (some e) c) s q u = (refl, (close-Unreported s.closed s refl c u).1)
  call-Unreported (closes c) s q u = close-Unreported s.closed s refl c u

  calls-keep_Unreported :
      (cs : List (Call E)) (s : Stream E)
      → All Quiet cs
      → Unreported s
      → Unreported (calls is_eof cs s)
  unfolding calls
  calls-keep_Unreported [] s q u = u
  calls-keep_Unreported (c ∷ cs) s (q, qs) u =
      calls-keep_Unreported cs (call is_eof c s) qs (call-Unreported c s q u)

-- Errors of Recv are forgotten: in a run in which no Send fails, the method Error finds no error and the
-- pool is never told of one, whatever errors Recv returned.
pub calls-unreported {ℓ} :
    {E : Type ℓ} (is_eof : E → Bool) (cs : List (Call E))
    → All Quiet cs
    → ((calls is_eof cs new_stream).err ≡ none)
      × All (λ (e : Option E). e ≡ none) (calls is_eof cs new_stream).released
unfolding Unreported
calls-unreported is_eof cs q = calls-keep_Unreported is_eof cs new_stream q (refl, tt)
