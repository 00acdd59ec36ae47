-- ===== src/Mqtt/Hex.antt =====
-- protocols/mqtt_protocol.cc: `CharToHex` and `DecodeHexString`.
use Prim.Native.Nat.{bit_or}
use xiaozhi_pc.Base.{
  ℕ, ◌+◌, ◌-◌, ◌*◌, ◌/◌, ◌%◌, ◌<◌, ◌≡◌, refl, Bool, ◌&&◌, [], ◌∷◌, arith, leb, ltb, ◌==◌, ==_iff,
  if◌then◌else◌, failures_below, failures_below_sound,
}
use xiaozhi_pc.Base.Text.{Bytes}

unfoldable pub char_to_hex : ℕ → ℕ
char_to_hex c =
    if leb b'0' c && leb c b'9'
    then c - b'0'
    else if leb b'A' c && leb c b'F'
    then c - b'A' + 10
    else if leb b'a' c && leb c b'f'
    then c - b'a' + 10
    else 0

-- `(CharToHex(hi) << 4) | CharToHex(lo)` as a byte
abbrev pair_value : ℕ → ℕ → ℕ
pair_value hi lo = bit_or (char_to_hex hi * 16) (char_to_hex lo) % 256

-- At an odd length the last round reads the NUL behind the text.
unfoldable pub decode_hex_string : Bytes → Bytes
decode_hex_string [] = []
decode_hex_string (c ∷ []) = pair_value c 0 ∷ []
decode_hex_string (c ∷ d ∷ cs) = pair_value c d ∷ decode_hex_string cs

-- Two digits for each byte, in the letters of either case.
abbrev pub digit : Bool → ℕ → ℕ
digit upper n = if ltb n 10 then n + b'0' else if upper then n - 10 + b'A' else n - 10 + b'a'

unfoldable pub print_hex : Bool → Bytes → Bytes
print_hex upper [] = []
print_hex upper (b ∷ bs) = digit upper (b / 16) ∷ digit upper (b % 16) ∷ print_hex upper bs

char_to_hex-digit : (upper : Bool) (n : ℕ) → n < 16 → char_to_hex (digit upper n) ≡ n
unfolding char_to_hex
char_to_hex-digit upper n h = ground arith

-- A byte is put together from its two halves.
abbrev joins : ℕ → Bool
joins b = bit_or (b / 16 * 16) (b % 16) % 256 == b

no_failures : failures_below joins 256 ≡ 0
unfolding failures_below
no_failures = refl

bit_or_halves : (b : ℕ) → b < 256 → bit_or (b / 16 * 16) (b % 16) % 256 ≡ b
bit_or_halves b lt = (==_iff _ b).0 (failures_below_sound joins 256 b no_failures lt)

abbrev pub AreBytes : Bytes → Type 0
AreBytes [] = Unit {0}
AreBytes (b ∷ bs) = (b < 256) × AreBytes bs

-- Decoding gives back any bytes that are written in hexadecimal, in upper or in lower case.
pub decode_hex_string-print_hex :
    (upper : Bool) (bs : Bytes) → AreBytes bs → decode_hex_string (print_hex upper bs) ≡ bs
unfolding decode_hex_string print_hex
decode_hex_string-print_hex upper [] h = refl
decode_hex_string-print_hex upper (b ∷ bs) h = rw (
  char_to_hex-digit upper (b / 16) (omega arith),
  char_to_hex-digit upper (b % 16) (omega arith),
  bit_or_halves b h.0,
  decode_hex_string-print_hex upper bs h.1,
)
