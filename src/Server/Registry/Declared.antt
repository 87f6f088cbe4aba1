-- ===== src/Server/Registry/Declared.antt =====
-- Which handlers a registration adds.
use go_vkit.Prelude.{
  ◌≡◌, refl, ◌⊎◌, inl, inr, List, [], ◌∷◌, Option, none, some, arith, Option-cases, Bool-cases,
  Bytes, bytes_eq, bytes_eq_iff, GoMap, lookup, insert, lookup-insert,
}
use go_vkit.Server.Registry.{
  ApiEndpoint, Method, Service, HandlerInfo, Handlers, method_name, param_types, Target, target,
  store, handler_info, register_target, register_method, register_methods, register_with_url,
  endpoint_map, register_all, register_api_endpoint,
}

-- An endpoint of the list has `k` for its URL or its method.
pub data Names (k : Bytes) : List ApiEndpoint → Type 0 where
  here : {v : ApiEndpoint} {vs : List ApiEndpoint} → (k ≡ v.url) ⊎ (k ≡ v.method) → Names k (v ∷ vs)
  later : {v : ApiEndpoint} {vs : List ApiEndpoint} → Names k vs → Names k (v ∷ vs)

-- The map has entries of the list alone.
abbrev From : List ApiEndpoint → GoMap ApiEndpoint → Type 0
From list m =
    (k name : Bytes) (d : ApiEndpoint)
    → lookup name m ≡ some d
    → (k ≡ d.url) ⊎ (k ≡ d.method)
    → Names k list

lookup-store :
    (t : Target) (h : HandlerInfo) (handlers : Handlers) (k : Bytes) (i : HandlerInfo)
    → lookup k (store t h handlers) ≡ some i
    → (lookup k handlers ≡ some i) ⊎ ((k ≡ t.url) ⊎ (k ≡ t.method))
unfolding store
lookup-store t h handlers k i e = ground (
  arith,
  lookup-insert t.url k h handlers,
  lookup-insert t.method k h (insert t.url h handlers),
  bytes_eq_iff t.url k,
  bytes_eq_iff t.method k,
)

target-endpoint :
    (m : GoMap ApiEndpoint) (name : Bytes) (t : Target)
    → target (some m) name ≡ some t
    → (d : ApiEndpoint) × (lookup name m ≡ some d) × (t.url ≡ d.url) × (t.method ≡ d.method)
unfolding target
target-endpoint m name t e = elim (Option-cases (lookup name m)) [
  | inl none_there ↦ absurd (ground (arith, e))
  | inr (d, found) ↦ (d, found, ground arith, ground arith)
]

endpoint_map-From :
    (all list : List ApiEndpoint) (m : GoMap ApiEndpoint)
    → ((k : Bytes) → Names k list → Names k all)
    → From all m
    → From all (endpoint_map list m)
unfolding endpoint_map
endpoint_map-From all [] m sub f = f
endpoint_map-From all (v ∷ vs) m sub f =
    endpoint_map-From all vs (insert v.method v m) (λ k n. sub k (later n)) added
  where
    added : From all (insert v.method v m)
    added k name d e n = elim (Bool-cases (bytes_eq v.method name)) [
      | inl same ↦ sub k (here (ground (arith, lookup-insert v.method name v m)))
      | inr differs ↦ f k name d (ground (arith, lookup-insert v.method name v m)) n
    ]

-- What a step of the registration adds to the handlers is named by an endpoint of the list.
abbrev Adds : List ApiEndpoint → Handlers → Handlers → Type 0
Adds list before after =
    (k : Bytes) (i : HandlerInfo)
    → lookup k after ≡ some i
    → (lookup k before ≡ some i) ⊎ Names k list

Adds-trans :
    (list : List ApiEndpoint) (a b c : Handlers) → Adds list a b → Adds list b c → Adds list a c
Adds-trans list a b c f g k i e = elim (g k i e) [ inl old ↦ f k i old | inr n ↦ inr n ]

module _ (list : List ApiEndpoint) (m : GoMap ApiEndpoint) (f : From list m) where
  store-Adds :
      (name : Bytes) (t : Target) (h : HandlerInfo) (handlers : Handlers)
      → target (some m) name ≡ some t
      → Adds list handlers (store t h handlers)
  store-Adds name t h handlers e k i q =
      let (d, found, u, v) = target-endpoint m name t e in
      elim (lookup-store t h handlers k i q) [
        | inl old ↦ inl old
        | inr n ↦ inr (f k name d found (ground arith))
      ]

  register_method-Adds :
      (s : Service) (method : Method) (handlers after : Handlers)
      → register_method s (some m) method handlers ≡ some after
      → Adds list handlers after
  unfolding register_method register_target
  register_method-Adds s method handlers after e =
      go (target (some m) (method_name s method)) refl e
    where
      go :
          (o : Option Target)
          → target (some m) (method_name s method) ≡ o
          → register_target s method o handlers ≡ some after
          → Adds list handlers after
      go none t q k i l = inl (ground arith)
      go (some t) te q k i l = elim (Option-cases (param_types method.params)) [
        | inl panics ↦ absurd (ground arith)
        | inr (types, ok) ↦
            store-Adds (method_name s method) t (handler_info s method t types) handlers te k i
              (ground arith)
      ]

  register_methods-Adds :
      (s : Service) (ms : List Method) (handlers after : Handlers)
      → register_methods s (some m) ms handlers ≡ some after
      → Adds list handlers after
  unfolding register_methods
  register_methods-Adds s [] handlers after e = λ k i l. inl (ground arith)
  register_methods-Adds s (x ∷ ms) handlers after e =
      elim (Option-cases (register_method s (some m) x handlers)) [
        | inl panics ↦ absurd (ground arith)
        | inr (h, ok) ↦
            Adds-trans list handlers h after (register_method-Adds s x handlers h ok)
              (register_methods-Adds s ms h after (ground arith))
      ]

  register_all-Adds :
      (ss : List Service) (handlers after : Handlers)
      → register_all ss (some m) handlers ≡ some after
      → Adds list handlers after
  unfolding register_all register_with_url
  register_all-Adds [] handlers after e = λ k i l. inl (ground arith)
  register_all-Adds (s ∷ ss) handlers after e =
      elim (Option-cases (register_with_url s (some m) handlers)) [
        | inl panics ↦ absurd (ground arith)
        | inr (h, ok) ↦
            Adds-trans list handlers h after (register_methods-Adds s s.methods handlers h ok)
              (register_all-Adds ss h after (ground arith))
      ]

-- RegisterApiEndpoint registers under declared names alone: a key that has a handler after it had that
-- handler before, or is the URL or the method of an endpoint of the list.
pub register_api_endpoint-declared :
    (services : List Service) (list : List ApiEndpoint) (before after : Handlers) (k : Bytes)
    (i : HandlerInfo)
    → register_api_endpoint services list before ≡ some after
    → lookup k after ≡ some i
    → (lookup k before ≡ some i) ⊎ Names k list
unfolding register_api_endpoint lookup
register_api_endpoint-declared services list before after k i e l =
    register_all-Adds list (endpoint_map list [])
      (endpoint_map-From list list [] (λ k n. n) (λ k name d q n. cc)) services before after e k i l
