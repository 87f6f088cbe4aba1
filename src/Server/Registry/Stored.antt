-- ===== src/Server/Registry/Stored.antt =====
-- A service that is registered without endpoints has a handler for each of its methods.
use go_vkit.Prelude.{
  ℕ, ◌≡◌, refl, sym, ap, ◌∙◌, ◌≢◌, false, List, [], ◌∷◌, ◌++◌, Option, none, some, arith,
  Option-cases, inl, inr, Bytes, bytes_eq_iff, lookup, insert, lookup-insert, All,
  lookup-insert_self,
}
use mathlib.Core.Option.{some-injective, none-ne-some}
use go_vkit.Server.Registry.{
  Method, Service, HandlerInfo, Handlers, method_name, param_types, target, store, handler_info,
  register_target, register_method, register_methods, register_with_url, register,
}

-- A method of the list.
pub data Among (m : Method) : List Method → Type 0 where
  first : {ms : List Method} → Among m (m ∷ ms)
  later : {n : Method} {ms : List Method} → Among m ms → Among m (n ∷ ms)

-- No two methods of a Go type have the same name.
abbrev pub Unique : List Method → Type 0
Unique [] = Unit {0}
Unique (m ∷ ms) = All (λ n. n.name ≢ m.name) ms × Unique ms

-- The handler of a method with these types of its parameter and its reply, which is unary.
abbrev pub plain_handler : Service → Method → Option ℕ × ℕ → HandlerInfo
plain_handler s m (req, resp) = record {
  handler = s.name;
  method = m.name;
  req_type = req;
  resp_type = resp;
  client_stream = false;
  server_stream = false;
}

register_method-insert :
    (s : Service) (m : Method) (before after : Handlers)
    → register_method s none m before ≡ some after
    → (types : Option ℕ × ℕ) × (param_types m.params ≡ some types)
      × (after ≡ insert (method_name s m) (plain_handler s m types) before)
unfolding register_method register_target target store handler_info
register_method-insert s m before after e = go (param_types m.params) refl e
  where
    go :
        (o : Option (Option ℕ × ℕ))
        → param_types m.params ≡ o
        → (elim o [
          | none ↦ none
          | some types ↦ some (insert (method_name s m) (plain_handler s m types) before)
        ])
          ≡ some after
        → (types : Option ℕ × ℕ) × (param_types m.params ≡ some types)
          × (after ≡ insert (method_name s m) (plain_handler s m types) before)
    go none h q = absurd (none-ne-some _ q)
    go (some types) h q = (types, h, sym (some-injective _ _ q))

-- What the registration of a list of methods does after its first one.
register_methods-cons :
    (s : Service) (n : Method) (ms : List Method) (before after : Handlers)
    → register_methods s none (n ∷ ms) before ≡ some after
    → (mid : Handlers) × (register_method s none n before ≡ some mid)
      × (register_methods s none ms mid ≡ some after)
unfolding register_methods
register_methods-cons s n ms before after e =
    elim (Option-cases (register_method s none n before)) [
      | inl panics ↦ absurd (ground (arith, e))
      | inr (mid, ok) ↦ (mid, ok, ground (arith, e))
    ]

-- Methods of other names leave a handler.
register_methods-keeps :
    (s : Service) (ms : List Method) (k : Bytes) (before after : Handlers)
    → register_methods s none ms before ≡ some after
    → All (λ n. method_name s n ≢ k) ms
    → lookup k after ≡ lookup k before
unfolding register_methods
register_methods-keeps s [] k before after e d = ap (lookup k) (sym (some-injective _ _ e))
register_methods-keeps s (n ∷ ms) k before after e (dn, d) =
    let (mid, h, q) = register_methods-cons s n ms before after e in
    let (types, ok, put) = register_method-insert s n before mid h in
    register_methods-keeps s ms k mid after q d
    ∙ ground (
      arith,
      put,
      lookup-insert (method_name s n) k (plain_handler s n types) before,
      bytes_eq_iff (method_name s n) k,
    )

append-injective : (a : Bytes) (b c : Bytes) → a ++ b ≡ a ++ c → b ≡ c
append-injective [] b c e = e
append-injective (x ∷ a) b c e = append-injective a b c (cc e)

method_name-injective :
    (s : Service) (m n : Method) → method_name s n ≡ method_name s m → n.name ≡ m.name
unfolding method_name
method_name-injective s m n e = cc (append-injective s.name (b'.' ∷ n.name) (b'.' ∷ m.name) e)

others :
    (s : Service) (m : Method) (ms : List Method)
    → All (λ n. n.name ≢ m.name) ms
    → All (λ n. method_name s n ≢ method_name s m) ms
others s m [] u = tt
others s m (n ∷ ms) (un, u) = (λ e. un (method_name-injective s m n e), others s m ms u)

-- A registration that succeeds has, for each method of the service, the handler of its name: the method has
-- one or two types, and is unary.
pub register_methods-Among :
    (s : Service) (m : Method) (ms : List Method) (before after : Handlers)
    → register_methods s none ms before ≡ some after
    → Among m ms
    → Unique ms
    → (types : Option ℕ × ℕ) × (param_types m.params ≡ some types)
      × (lookup (method_name s m) after ≡ some (plain_handler s m types))
register_methods-Among s m [] before after e w u = elim w [ ]
register_methods-Among s m (_ ∷ ms) before after e first (un, u) =
    let (mid, h, q) = register_methods-cons s m ms before after e in
    let (types, ok, put) = register_method-insert s m before mid h in
    (
      types,
      ok,
      register_methods-keeps s ms (method_name s m) mid after q (others s m ms un)
          ∙ (ap (lookup (method_name s m)) put
              ∙ lookup-insert_self (method_name s m) (plain_handler s m types) before),
    )
register_methods-Among s m (n ∷ ms) before after e (later w) (un, u) =
    let (mid, h, q) = register_methods-cons s n ms before after e in
    register_methods-Among s m ms mid after q w u

pub register-Among :
    (s : Service) (m : Method) (before after : Handlers)
    → register s before ≡ some after
    → Among m s.methods
    → Unique s.methods
    → (types : Option ℕ × ℕ) × (param_types m.params ≡ some types)
      × (lookup (s.name ++ b'.' ∷ m.name) after ≡ some (plain_handler s m types))
unfolding register register_with_url method_name
register-Among s m before after e w u = register_methods-Among s m s.methods before after e w u
