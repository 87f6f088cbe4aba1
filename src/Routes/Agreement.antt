-- ===== src/Routes/Agreement.antt =====
-- The server reads from a call the method that the client was asked for.
use go_vkit.Prelude.{
  ◌≡◌, refl, ◌≢◌, List, [], ◌∷◌, ◌++◌, some, arith, if◌then◌else◌, Bytes, All-append, append_assoc,
}
use go_vkit.Strings.{split}
use go_vkit.Strings.Laws.{Lacks, split_one, split-append, split_behind}
use go_vkit.Routes.{is_empty, grpc_path, method_to_grpc, last_part, grpc_parts, service_method}

last_part-append : (ps qs : List Bytes) (q : Bytes) → last_part (ps ++ q ∷ qs) ≡ last_part (q ∷ qs)
unfolding last_part
last_part-append [] qs q = refl
last_part-append (p ∷ []) qs q = refl
last_part-append (p ∷ r ∷ ps) qs q = last_part-append (r ∷ ps) qs q

-- The struct's name behind any package path is the last part of the path.
last_part-split :
    (pkg name : Bytes) → Lacks b'.' name → last_part (split (pkg ++ b'.' ∷ name) b'.') ≡ name
unfolding last_part
last_part-split pkg name h =
    let (p, ps, e) = split_behind pkg name b'.' in
    rw (e, split_one name b'.' h) (last_part-append (p ∷ ps) [] name)

method_to_grpc_lem :
    (service name method : Bytes)
    → name ≢ []
    → Lacks b'.' name
    → Lacks b'/' name
    → Lacks b'.' method
    → method_to_grpc service (name ++ b'.' ∷ method) ≡ (
        if is_empty service
        then b'/' ∷ (name ++ b'/' ∷ method)
        else b'/' ∷ ((service ++ b'.' ∷ name) ++ b'/' ∷ method))
unfolding method_to_grpc grpc_path
method_to_grpc_lem service [] method ne nd ns md = absurd (ne refl)
method_to_grpc_lem service (n ∷ name) method ne nd ns md = ground (
  arith,
  split-append (n ∷ name) method b'.' nd,
  split_one method b'.' md,
  append_assoc service (b'.' ∷ n ∷ name) (b'/' ∷ method),
)

service_method_lem :
    (q r : Bytes)
    → q ≢ []
    → r ≢ []
    → Lacks b'/' q
    → Lacks b'/' r
    → service_method (b'/' ∷ (q ++ b'/' ∷ r)) ≡ some (last_part (split q b'.'), r)
unfolding service_method grpc_parts
service_method_lem [] r qe re qs rs = absurd (qe refl)
service_method_lem (c ∷ q) [] qe re qs rs = absurd (re refl)
service_method_lem (c ∷ q) (d ∷ r) qe re qs rs = ground (
  arith,
  split-append [] (c ∷ (q ++ b'/' ∷ d ∷ r)) b'/' tt,
  split-append (c ∷ q) (d ∷ r) b'/' qs,
  split_one (d ∷ r) b'/' rs,
)

-- A method `Struct.Method` of a service, sent by the client and read by the server, gives `Struct`
-- and `Method` again: the two names are not empty and hold no dot and no slash, and the service,
-- which may be empty or hold dots, has no slash.
pub service_method-method_to_grpc :
    (service name method : Bytes)
    → Lacks b'/' service
    → name ≢ []
    → method ≢ []
    → Lacks b'.' name
    → Lacks b'/' name
    → Lacks b'.' method
    → Lacks b'/' method
    → service_method (method_to_grpc service (name ++ b'.' ∷ method)) ≡ some (name, method)
unfolding last_part
service_method-method_to_grpc [] name method hs ne me nd ns md ms = rw (
  method_to_grpc_lem [] name method ne nd ns md,
  service_method_lem name method ne me ns ms,
  split_one name b'.' nd,
)
service_method-method_to_grpc (c ∷ service) name method hs ne me nd ns md ms = rw (
  method_to_grpc_lem (c ∷ service) name method ne nd ns md,
  service_method_lem ((c ∷ service) ++ b'.' ∷ name) method (cc) me
      (All-append (λ a. a ≢ b'/') (c ∷ service) (b'.' ∷ name) hs (ground arith, ns)) ms,
  last_part-split (c ∷ service) name nd,
)
