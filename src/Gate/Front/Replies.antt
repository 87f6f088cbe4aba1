-- ===== src/Gate/Front/Replies.antt =====
-- The statuses of the replies that the checks and the deferred recover make.
use go_vkit.Prelude.{
  ◌≤◌, ◌≡◌, ◌≢◌, Bool, true, ◌||◌, [], ◌∷◌, Option, none, some, arith, codes, Bytes, ltb, bytes_eq,
  Bool-cases, inl, inr,
}
use go_vkit.Strings.{to_upper}
use go_vkit.Errors.{Error, internal_server_error}
use go_vkit.Server.Handler.{Outcome, returned, panicked, MaybeError}
use go_vkit.Gate.Front.{
  Reply, nothing, error_reply, content, error_response, Messages, check_names, check_auth,
  net_error_of, default_err_handler, recovered, Checked, go_on, stop, check,
}

abbrev pub is_options : Bytes → Bool
is_options method = bytes_eq (to_upper method) (codes "OPTIONS")

-- A reply with a status that HTTP has, three digits, or content, which goes out with 200; nothing is left unwritten
-- but for the method OPTIONS.
abbrev pub HasStatus : (method : Bytes) → Outcome Reply → Type 0
HasStatus method (returned nothing) = is_options method ≡ true
HasStatus method (returned (error_reply e)) = (100 ≤ e.status) × (e.status ≤ 999)
HasStatus method (returned (content b)) = Unit {0}
HasStatus method (panicked r) = ⊥

-- A panic, or a reply with a status.
abbrev pub Sendable : Bytes → Outcome Reply → Type 0
Sendable method (returned r) = HasStatus method (returned r)
Sendable method (panicked r) = Unit {0}

pub error_response-Sendable : (method : Bytes) (e : Error) → Sendable method (error_response e)
unfolding error_response
error_response-Sendable method e =
    elim (Bool-cases (ltb (net_error_of e).status 100 || ltb 999 (net_error_of e).status)) [
      | inl h ↦ rw (h) tt
      | inr h ↦ rw (h) (ground arith, ground arith)
    ]

abbrev pub SendableStop : Bytes → Checked → Type 0
SendableStop method (go_on s e) = Unit {0}
SendableStop method (stop r) = Sendable method r

check_names-Sendable :
    (sprintf : Bytes → Bytes) (m : Messages) (method uri : Bytes) (p : Bytes × Bytes)
    → SendableStop method (check_names sprintf m uri p)
unfolding check_names
check_names-Sendable sprintf m method uri ([], e) = error_response-Sendable method _
check_names-Sendable sprintf m method uri (s ∷ ss, []) = error_response-Sendable method _
check_names-Sendable sprintf m method uri (s ∷ ss, e ∷ es) = tt

check_auth-Sendable :
    (sprintf : Bytes → Bytes) (m : Messages) (auth : Option (Outcome MaybeError))
    (method uri : Bytes)
    → SendableStop method (check_auth sprintf m auth uri)
unfolding check_auth
check_auth-Sendable sprintf m none method uri = check_names-Sendable sprintf m method uri _
check_auth-Sendable sprintf m (some (returned none)) method uri =
    check_names-Sendable sprintf m method uri _
check_auth-Sendable sprintf m (some (panicked r)) method uri = tt
check_auth-Sendable sprintf m (some (returned (some e))) method uri =
    error_response-Sendable method e

pub check-Sendable :
    (sprintf : Bytes → Bytes) (m : Messages) (auth : Option (Outcome MaybeError))
    (method uri : Bytes)
    → SendableStop method (check sprintf m auth method uri)
unfolding check
check-Sendable sprintf m auth method uri =
    elim (Bool-cases (bytes_eq (to_upper method) (codes "OPTIONS"))) [
      | inl h ↦ rw (h) h
      | inr h ↦ elim (Bool-cases (bytes_eq (to_upper method) (codes "POST"))) [
        | inl g ↦ rw (h, g) (check_auth-Sendable sprintf m auth method uri)
        | inr g ↦ rw (h, g) (error_response-Sendable method _)
      ]
    ]

pub recovered-HasStatus :
    (sprintf : Bytes → Bytes) (method : Bytes) (o : Outcome Reply)
    → Sendable method o
    → HasStatus method (recovered (some (default_err_handler sprintf)) o)
unfolding recovered default_err_handler error_response internal_server_error
recovered-HasStatus sprintf method (returned r) s = s
recovered-HasStatus sprintf method (panicked r) s = (ground arith, ground arith)

pub error_response-no_content : (e : Error) (b : Bytes) → error_response e ≢ returned (content b)
unfolding error_response
error_response-no_content e b h = ground arith

-- The checks themselves send no content.
abbrev pub NoContent : Checked → Type 0
NoContent c = (b : Bytes) → c ≢ stop (returned (content b))

stop-NoContent : (e : Error) → NoContent (stop (error_response e))
stop-NoContent e b h = error_response-no_content e b (ground arith)

check_names-NoContent :
    (sprintf : Bytes → Bytes) (m : Messages) (uri : Bytes) (p : Bytes × Bytes)
    → NoContent (check_names sprintf m uri p)
unfolding check_names
check_names-NoContent sprintf m uri ([], e) = stop-NoContent _
check_names-NoContent sprintf m uri (s ∷ ss, []) = stop-NoContent _
check_names-NoContent sprintf m uri (s ∷ ss, e ∷ es) = λ b h. cc

check_auth-NoContent :
    (sprintf : Bytes → Bytes) (m : Messages) (auth : Option (Outcome MaybeError)) (uri : Bytes)
    → NoContent (check_auth sprintf m auth uri)
unfolding check_auth
check_auth-NoContent sprintf m none uri = check_names-NoContent sprintf m uri _
check_auth-NoContent sprintf m (some (returned none)) uri = check_names-NoContent sprintf m uri _
check_auth-NoContent sprintf m (some (panicked r)) uri = λ b h. cc
check_auth-NoContent sprintf m (some (returned (some e))) uri = stop-NoContent e

pub check-NoContent :
    (sprintf : Bytes → Bytes) (m : Messages) (auth : Option (Outcome MaybeError))
    (method uri : Bytes)
    → NoContent (check sprintf m auth method uri)
unfolding check
check-NoContent sprintf m auth method uri =
    elim (Bool-cases (bytes_eq (to_upper method) (codes "OPTIONS"))) [
      | inl h ↦ rw (h) (λ b e. cc)
      | inr h ↦ elim (Bool-cases (bytes_eq (to_upper method) (codes "POST"))) [
        | inl g ↦ rw (h, g) (check_auth-NoContent sprintf m auth uri)
        | inr g ↦ rw (h, g) (stop-NoContent _)
      ]
    ]
