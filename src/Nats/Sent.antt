-- ===== src/Nats/Sent.antt =====
-- What the result of Publish, PublishMsg and PublishRequest says.
use go_vkit.Prelude.{◌≡◌, ◌⊎◌, refl, sym, ap, ◌∙◌, Option, none, some, inl, inr}
use mathlib.Core.Option
use mathlib.Core.Option.{some-injective, none-ne-some}
use go_vkit.Nats.{
  NatsError, connection_closed, library, reconnect_fail, Library, NatsClient, State, conn_options,
  connected, conn, try_reconnect, send_on, after_reconnect, after_send, send_twice,
}

module _ {ℓ} {S C M O : Type ℓ} (lib : Library S C M O) (send : C → S → S × Option NatsError) where
  -- The result is what the connection of the client answered to a call, after which nothing happened.
  abbrev pub Answered : State lib → Option NatsError → Type ℓ
  Answered (the, t) e = (c : C) × (s : S) × (the.conn ≡ some c) × (send c s ≡ (t, e))

  -- The connection was closed, and connecting anew failed.
  abbrev pub Lost : State lib → Option NatsError → Type ℓ
  Lost (the, t) e =
      (s : S) × (d : NatsError) × (lib.connect the.url (conn_options lib the the.options) s
        ≡ (t, inl d))
      × (e ≡ some (reconnect_fail d))

  send_on-Answered :
      (st t : State lib) (e : Option NatsError) → send_on lib send st ≡ some (t, e) → Answered t e
  unfolding send_on
  send_on-Answered (the, s) t e h = go the.conn refl
    where
      go : (o : Option C) → the.conn ≡ o → Answered t e
      go none q = absurd (none-ne-some _ (rw (q, send_on) at h))
      go (some c) q =
          let p = some-injective _ _ (rw (q, send_on) at h) in
          (c, s, ap (λ r. r.0.0.conn) (sym p) ∙ q, ap (λ r. (r.0.1, r.1)) p)

  connected-Lost :
      (the : NatsClient S C O) (s : S) (r : S × (NatsError ⊎ C)) (t : State lib) (f : NatsError)
      → lib.connect the.url (conn_options lib the the.options) s ≡ r
      → connected lib the r ≡ (t, some f)
      → Lost t (some (reconnect_fail f))
  unfolding connected
  connected-Lost the s (u, inl d) t f q h =
      rw (← ap (λ r. r.0) h)
        (s, d, q, ap (λ o. Option.map reconnect_fail o) (sym (ap (λ r. r.1) h)))
  connected-Lost the s (u, inr c) t f q h = absurd (none-ne-some _ (ap (λ r. r.1) h))

  try_reconnect-Lost :
      (d : NatsError) (st t : State lib) (f : NatsError)
      → try_reconnect lib d st ≡ (t, some f)
      → Lost t (some (reconnect_fail f))
  unfolding try_reconnect conn
  try_reconnect-Lost connection_closed (the, s) t f h = connected-Lost the s _ t f refl h
  try_reconnect-Lost (library x) st t f h = absurd (none-ne-some _ (ap (λ r. r.1) h))
  try_reconnect-Lost (reconnect_fail x) st t f h = absurd (none-ne-some _ (ap (λ r. r.1) h))

  after_reconnect-or :
      (r : State lib × Option NatsError) (t : State lib) (e : Option NatsError)
      → ((u : State lib) (f : NatsError) → r ≡ (u, some f) → Lost u (some (reconnect_fail f)))
      → after_reconnect lib send r ≡ some (t, e)
      → Answered t e ⊎ Lost t e
  unfolding after_reconnect
  after_reconnect-or (u, none) t e f h = inl (send_on-Answered u t e h)
  after_reconnect-or (u, some d) t e f h =
      let p = some-injective _ _ h in inr (rw (← ap (λ r. r.0) p, ← ap (λ r. r.1) p) (f u d refl))

  after_send-or :
      (r : Option (State lib × Option NatsError)) (t : State lib) (e : Option NatsError)
      → ((u : State lib) (d : Option NatsError) → r ≡ some (u, d) → Answered u d)
      → after_send lib send r ≡ some (t, e)
      → Answered t e ⊎ Lost t e
  unfolding after_send
  after_send-or none t e f h = absurd (none-ne-some _ h)
  after_send-or (some (st, none)) t e f h = inl (f t e h)
  after_send-or (some (st, some d)) t e f h =
      after_reconnect-or (try_reconnect lib d st) t e (λ u g q. try_reconnect-Lost d st u g q) h

-- Where one of the three methods returns, its result, nil or an error, is what the connection that the client
-- then has answered to the last call of it; or the connection had been closed and could not be made anew, and
-- the result says so. So a nil result is a message that the library took.
pub send_twice-or {ℓ} :
    {S C M O : Type ℓ} (lib : Library S C M O) (send : C → S → S × Option NatsError)
    (st t : State lib) (e : Option NatsError)
    → send_twice lib send st ≡ some (t, e)
    → Answered lib send t e ⊎ Lost lib send t e
unfolding send_twice
send_twice-or lib send st t e h =
    after_send-or lib send (send_on lib send st) t e (λ u d q. send_on-Answered lib send st u d q) h
