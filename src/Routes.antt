-- ===== src/Routes.antt =====
-- How a request is routed: grpcclient/utils.go methodToGRPC and grpcserver/utils.go ServiceMethod.
pub mod Agreement
use go_vkit.Prelude.{
  ℕ, zero, suc, Bool, true, false, ◌&&◌, ◌||◌, not, List, [], ◌∷◌, ◌++◌, Option, none, some, ◌==◌,
  if◌then◌else◌, length, Bytes,
}
use go_vkit.Strings.{split}

abbrev pub is_empty : Bytes → Bool
is_empty [] = true
is_empty (c ∷ s) = false

-- `s[0] == '/'`
abbrev pub starts_with_slash : Bytes → Bool
starts_with_slash [] = false
starts_with_slash (c ∷ s) = c == b'/'

grpc_path : Bytes → List Bytes → Bytes → Bytes
grpc_path service (p ∷ q ∷ []) method =
    if is_empty service
    then b'/' ∷ (p ++ (b'/' ∷ q))
    else b'/' ∷ (service ++ (b'.' ∷ (p ++ (b'/' ∷ q))))
grpc_path service _ method = method

pub method_to_grpc : Bytes → Bytes → Bytes
unfolding grpc_path
method_to_grpc service method =
    if is_empty method || starts_with_slash method
    then method
    else grpc_path service (split method b'.') method

-- `service[len(service)-1]`
pub last_part : List Bytes → Bytes
last_part [] = []
last_part (p ∷ []) = p
last_part (p ∷ q ∷ ps) = last_part (q ∷ ps)

grpc_parts : List Bytes → Option (Bytes × Bytes)
unfolding last_part
grpc_parts (p ∷ q ∷ r ∷ []) =
    if is_empty q || is_empty r then none else some (last_part (split q b'.'), r)
grpc_parts _ = none

plain_parts : List Bytes → Option (Bytes × Bytes)
plain_parts (p ∷ q ∷ []) = some (p, q)
plain_parts _ = none

-- `none` is the error "malformed method name".
pub service_method : Bytes → Option (Bytes × Bytes)
unfolding grpc_parts plain_parts
service_method m =
    if is_empty m
    then none
    else if starts_with_slash m
    then grpc_parts (split m b'/')
    else plain_parts (split m b'.')
