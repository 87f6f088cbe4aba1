-- ===== src/Server/Headers.antt =====
-- The headers of a call, in GrpcServer.handler: the incoming metadata become a context's metadata, the
-- content types are settled, and a time limit is read.
pub mod Laws
use go_vkit.Prelude.{
  ℕ, ◌≡◌, Bool, List, [], ◌∷◌, Option, none, some, codes, Bytes, GoMap, lookup, insert, erase, ltb,
  if◌then◌else◌, ℤ, signed64,
}
use go_vkit.Strings.{join}
use go_vkit.Strings.Decimal.{parse_uint}
use go_vkit.Metadata.{Metadata}
use go_vkit.Routes.{is_empty}

abbrev pub default_content_type : Bytes
default_content_type = codes "application/grpc"

abbrev pub content_type : Bytes
content_type = codes "content-type"

abbrev pub x_content_type : Bytes
x_content_type = codes "x-content-type"

abbrev pub timeout_key : Bytes
timeout_key = codes "timeout"

-- `for k, v := range gmd { md[k] = strings.Join(v, ", ") }`
join_values : GoMap (List Bytes) → Metadata → Metadata
join_values [] md = md
join_values ((k, v) ∷ gmd) md = join_values gmd (insert k (join v (codes ", ")) md)

pub get_or {ℓ} : {A : Type ℓ} → Option A → A → A
get_or none d = d
get_or (some v) d = v

-- `xct`: x-content-type, or content-type, or the default.
pub exchange_type : Metadata → Bytes
unfolding get_or
exchange_type md =
    get_or (lookup x_content_type md) (get_or (lookup content_type md) default_content_type)

-- `ct`: content-type, or `xct`.
pub reply_type : Metadata → Bytes
unfolding get_or exchange_type
reply_type md = get_or (lookup content_type md) (exchange_type md)

-- `md["Remote"] = p.Addr.String()`; the context holds this very map.
with_remote : Option Bytes → Metadata → Metadata
with_remote none md = md
with_remote (some addr) md = insert (codes "Remote") addr md

-- time.Duration(n) of a uint64, in nanoseconds.
time_limit_of : Option ℕ → Option ℤ
time_limit_of none = none
time_limit_of (some n) = some (signed64 n)

-- The timeout of `context.WithTimeout`, `none` where the handler sets none.
pub time_limit : Bytes → Option ℤ
unfolding time_limit_of
time_limit to = if is_empty to then none else time_limit_of (parse_uint to)

pub record Headers : Type 0 where
  pub ct : Bytes
  pub xct : Bytes
  pub md : Metadata
  pub limit : Option ℤ

pub read_headers : Option (GoMap (List Bytes)) → Option Bytes → Headers
unfolding get_or join_values with_remote
read_headers incoming remote =
    let md = join_values (get_or incoming []) [] in
    record {
      ct = reply_type md;
      xct = exchange_type md;
      md =
          with_remote remote
            (erase x_content_type (erase timeout_key (insert content_type (reply_type md) md)));
      limit = time_limit (get_or (lookup timeout_key md) []);
    }
