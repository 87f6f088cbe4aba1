-- ===== src/Errors/Codes.antt =====
-- The numbering of errors by project.
use go_vkit.Prelude.{ℕ, ◌+◌, ◌-◌, ◌*◌, ◌≤◌, ◌<◌, ◌≡◌, arith, some, pos, negsuc, Bytes}
use go_vkit.Errors.{Errno, new_errno}

-- Within the ranges that the panics name, NewErrno succeeds, and its code is 1000 times the project
-- plus the code, with no overflow of int32.
pub new_errno_in_range :
    (project code : ℕ) (msg : Bytes)
    → project ≤ 1000
    → code ≤ 999
    → new_errno (pos project) (pos code) msg
      ≡ some (record { project = pos project; code = pos (project * 1000 + code); msg = msg })
unfolding new_errno
new_errno_in_range project code msg p q = ground arith

-- Two errors of a project up to 1000 and a code up to 999 have one number only if project and code are the
-- same.
pub new_errno_injective :
    (p q c d : ℕ) (m n : Bytes) (e f : Errno)
    → p ≤ 1000
    → q ≤ 1000
    → c ≤ 999
    → d ≤ 999
    → new_errno (pos p) (pos c) m ≡ some e
    → new_errno (pos q) (pos d) n ≡ some f
    → e.code ≡ f.code
    → (p ≡ q) × (c ≡ d)
new_errno_injective p q c d m n e f hp hq hc hd he hf same =
    ground (arith, new_errno_in_range p c m hp hc, new_errno_in_range q d n hq hd)

-- A negative code is not refused, though the panic's message says `should be 1~999`: code -k of one
-- project is code 1000 - k of the project before it.
pub new_errno_negative :
    (p k : ℕ) (msg : Bytes) (e f : Errno)
    → p < 1000
    → k < 999
    → new_errno (pos (p + 1)) (negsuc k) msg ≡ some e
    → new_errno (pos p) (pos (999 - k)) msg ≡ some f
    → e.code ≡ f.code
unfolding new_errno
new_errno_negative p k msg e f hp hk he hf = ground arith
