-- ===== src/Gate/Front/Paths.antt =====
-- Which requests pass the checks, and with which names.
use go_vkit.Prelude.{
  ◌≡◌, refl, ◌≢◌, ◌⊎◌, ◌++◌, [], ◌∷◌, Option, none, some, arith, codes, Bytes, bytes_eq_iff, inl,
  inr,
}
use go_vkit.Strings.{to_upper}
use go_vkit.Strings.Laws.{Lacks, split_one, split-append}
use go_vkit.Server.Handler.{returned, panicked, Outcome, MaybeError}
use go_vkit.Gate.Front.{Messages, go_on, names_of, path_names, check_names, check_auth, check}

-- A URL `/prefix/service/endpoint`, of parts without a slash, has these names.
pub names_of_url :
    (prefix service endpoint : Bytes)
    → Lacks b'/' prefix
    → Lacks b'/' service
    → Lacks b'/' endpoint
    → names_of (b'/' ∷ (prefix ++ b'/' ∷ (service ++ b'/' ∷ endpoint))) ≡ (service, endpoint)
unfolding names_of path_names
names_of_url prefix service endpoint hp hs he = rw (
  split-append [] (prefix ++ b'/' ∷ (service ++ b'/' ∷ endpoint)) b'/' tt,
  split-append prefix (service ++ b'/' ∷ endpoint) b'/' hp,
  split-append service endpoint b'/' hs,
  split_one endpoint b'/' he,
)

module _ (sprintf : Bytes → Bytes) (m : Messages) where
  check_names-go_on :
      (uri : Bytes) (p : Bytes × Bytes) (service endpoint : Bytes)
      → check_names sprintf m uri p ≡ go_on service endpoint
      → (p ≡ (service, endpoint)) × (service ≢ []) × (endpoint ≢ [])
  unfolding check_names
  check_names-go_on uri ([], e) service endpoint h = cc
  check_names-go_on uri (s ∷ ss, []) service endpoint h = cc
  check_names-go_on uri (s ∷ ss, e ∷ es) service endpoint h =
      (ground arith, ground arith, ground arith)

  check_auth-go_on :
      (auth : Option (Outcome MaybeError)) (uri service endpoint : Bytes)
      → check_auth sprintf m auth uri ≡ go_on service endpoint
      → ((auth ≡ none) ⊎ (auth ≡ some (returned none)))
        × (names_of uri ≡ (service, endpoint))
        × (service ≢ [])
        × (endpoint ≢ [])
  unfolding check_auth
  check_auth-go_on none uri service endpoint h =
      let (named, ns, ne) = check_names-go_on uri (names_of uri) service endpoint h in
      (inl refl, named, ns, ne)
  check_auth-go_on (some (returned none)) uri service endpoint h =
      let (named, ns, ne) = check_names-go_on uri (names_of uri) service endpoint h in
      (inr refl, named, ns, ne)
  check_auth-go_on (some (panicked r)) uri service endpoint h = cc
  check_auth-go_on (some (returned (some e))) uri service endpoint h = cc

-- A request passes only if its method is POST in any case, the authorisation, if there is one, found no
-- error, and its path names a service and an endpoint.
pub check-go_on :
    (sprintf : Bytes → Bytes) (m : Messages) (auth : Option (Outcome MaybeError))
    (method uri service endpoint : Bytes)
    → check sprintf m auth method uri ≡ go_on service endpoint
    → (to_upper method ≡ codes "POST")
      × ((auth ≡ none) ⊎ (auth ≡ some (returned none)))
      × (names_of uri ≡ (service, endpoint))
      × (service ≢ [])
      × (endpoint ≢ [])
unfolding check
check-go_on sprintf m auth method uri service endpoint e =
    let (authorised, named, ns, ne) =
      check_auth-go_on sprintf m auth uri service endpoint (ground arith) in
    (ground (arith, bytes_eq_iff (to_upper method) (codes "POST")), authorised, named, ns, ne)
