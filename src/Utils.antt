-- ===== src/Utils.antt =====
-- utilsx/file.go, utilsx/uuid.go, utilsx/md5.go and utilsx/bean.go. The file system, the identifiers, MD5 and
-- encoding/gob are arguments.
use go_vkit.Prelude.{
  ℕ, ◌+◌, ◌-◌, ◌*◌, ◌<◌, All, ◌≡◌, refl, Bool, true, false, ◌==◌, [], ◌∷◌, Option, some, arith,
  Bytes, ltb, if◌then◌else◌, Result, ok, err,
}
use Prim.Native.Nat.{◌/◌, ◌%◌}
use go_vkit.Strings.Laws.{Lacks}

-- What os.Stat returns, as far as os.IsNotExist looks at it.
pub data Stat : Type 0 where
  info : Stat
  not_exist : Stat
  stat_error : Bytes → Stat

-- FileIsExist: every other error counts as a file.
pub file_is_exist : Stat → Bool
file_is_exist not_exist = false
file_is_exist info = true
file_is_exist (stat_error e) = true

-- `strings.ReplaceAll(s, "-", "")`
without_dashes : Bytes → Bytes
without_dashes [] = []
without_dashes (c ∷ s) = let rest = without_dashes s in if c == b'-' then rest else c ∷ rest

-- GenUuid, of the text of an identifier.
pub gen_uuid : (uuid : Bytes) → Bytes
unfolding without_dashes
gen_uuid uuid = without_dashes uuid

hex_digit : ℕ → ℕ
hex_digit n = if ltb n 10 then b'0' + n else b'W' + n

-- The verb %x on bytes.
hex : Bytes → Bytes
unfolding hex_digit
hex [] = []
hex (c ∷ s) = hex_digit (c / 16) ∷ hex_digit (c % 16) ∷ hex s

-- Md5Encode
pub md5_encode : (sum : Bytes → Bytes) → Bytes → Bytes
unfolding hex
md5_encode sum str = hex (sum str)

-- DeepCopy: `dst` is written by the decoder, which reads what the encoder wrote of the source.
pub deep_copy {ℓ} :
    {V : Type ℓ} (encode : V → Result Bytes) (decode : Bytes → V → V × Option Bytes)
    → (src dst : V) → V × Option Bytes
deep_copy encode decode src dst = elim (encode src) [
  | err e ↦ (dst, some e)
  | ok buf ↦ decode buf dst
]

without_dashes-Lacks : (s : Bytes) → Lacks b'-' (without_dashes s)
unfolding without_dashes
without_dashes-Lacks [] = tt
without_dashes-Lacks (c ∷ s) = ground (arith, without_dashes-Lacks s)

-- An identifier has no dash.
pub gen_uuid-Lacks : (uuid : Bytes) → Lacks b'-' (gen_uuid uuid)
unfolding gen_uuid
gen_uuid-Lacks uuid = without_dashes-Lacks uuid

-- The value of a hexadecimal digit.
digit_value : ℕ → ℕ
digit_value d = if ltb d b'a' then d - b'0' else d - b'W'

pub unhex : Bytes → Bytes
unfolding digit_value
unhex (h ∷ l ∷ s) = (16 * digit_value h + digit_value l) ∷ unhex s
unhex _ = []

digit_value-hex_digit : (n : ℕ) → n < 16 → digit_value (hex_digit n) ≡ n
unfolding digit_value hex_digit
digit_value-hex_digit n h = ground arith

unhex-hex : (s : Bytes) → All (λ c. c < 256) s → unhex (hex s) ≡ s
unfolding unhex hex
unhex-hex [] h = refl
unhex-hex (c ∷ s) (hc, h) = ground (
  arith,
  digit_value-hex_digit (c / 16) (ground arith),
  digit_value-hex_digit (c % 16) (ground arith),
  unhex-hex s h,
)

-- The sum can be read from the text: two strings have the same text just if they have the same sum.
pub md5_encode-unhex :
    (sum : Bytes → Bytes) (s : Bytes)
    → All (λ c. c < 256) (sum s)
    → unhex (md5_encode sum s) ≡ sum s
unfolding md5_encode
md5_encode-unhex sum s h = unhex-hex (sum s) h
