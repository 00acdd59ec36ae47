-- ===== src/Base/Int.antt =====
-- C integers: ℤ over the native numbers, `std::to_string` and `std::atoi`.
use xiaozhi_pc.Base.Tests.{ltb, leb, ◌==◌, if◌then◌else◌}
use xiaozhi_pc.Base.Text.{Bytes}
use native.Mathlib.Omega.{arith}
use Prim.Native.Nat.{ℕ, zero, suc, ◌+◌, ◌-◌, ◌*◌, ◌/◌, ◌%◌, ◌≤◌, ◌<◌}
use mathlib.Core.Logic.{inl, inr}
use xiaozhi_pc.Base.Tests.{Bool-cases}
use mathlib.Core.List.{append-nil}
use mathlib.Core.Path.{◌≡◌, refl, ap, sym, ◌∙◌}
use mathlib.Core.Bool.{Bool, true, false, ◌&&◌, ◌||◌}
use mathlib.Core.List.{[], ◌∷◌, ◌++◌, append_assoc}

-- `negsuc n` is -(n + 1).
pub data ℤ : Type 0 where
  pos : ℕ → ℤ
  negsuc : ℕ → ℤ

abbrev pub neg : ℕ → ℤ
neg zero = pos 0
neg (suc n) = negsuc n

-- The difference of two numbers.
unfoldable pub sub_nat : ℕ → ℕ → ℤ
sub_nat m n = if leb n m then pos (m - n) else negsuc (n - m - 1)

-- `int16_t`: the number that the low 16 bits stand for
unfoldable pub int16 : ℕ → ℤ
int16 n = if ltb (n % 65536) 32768 then pos (n % 65536) else negsuc (65535 - n % 65536)

-- `<` on ℤ
unfoldable pub less : ℤ → ℤ → Bool
less (pos m) (pos n) = ltb m n
less (pos m) (negsuc n) = false
less (negsuc m) (pos n) = true
less (negsuc m) (negsuc n) = ltb n m

-- `-` on ℤ
unfoldable pub sub_int : ℤ → ℤ → ℤ
unfolding sub_nat
sub_int (pos m) (pos n) = sub_nat m n
sub_int (pos m) (negsuc n) = pos (m + n + 1)
sub_int (negsuc m) (pos n) = negsuc (m + n)
sub_int (negsuc m) (negsuc n) = sub_nat n m

-- `i * k` for a `k` that is not negative, and `i >> 15`, which rounds down
unfoldable pub times : ℤ → ℕ → ℤ
times (pos n) k = pos (n * k)
times (negsuc n) k = neg ((n + 1) * k)

unfoldable pub shift_right_15 : ℤ → ℤ
shift_right_15 (pos n) = pos (n / 32768)
shift_right_15 (negsuc n) = negsuc (n / 32768)

abbrev pub is_negative : ℤ → Bool
is_negative (pos n) = false
is_negative (negsuc n) = true

-- The digits of a number, most significant first; `n` rounds are enough for `n`.
digits : ℕ → ℕ → Bytes
digits zero n = (n % 10 + b'0') ∷ []
digits (suc f) n =
    let rest = digits f (n / 10) in
    if ltb n 10 then (n + b'0') ∷ [] else rest ++ (n % 10 + b'0') ∷ []

unfoldable pub print_nat : ℕ → Bytes
unfolding digits
print_nat n = digits n n

-- `std::to_string(int)`
unfoldable pub to_string : ℤ → Bytes
unfolding print_nat
to_string (pos n) = print_nat n
to_string (negsuc n) = b'-' ∷ print_nat (suc n)

abbrev is_digit : ℕ → Bool
is_digit c = leb b'0' c && leb c b'9'

abbrev is_space : ℕ → Bool
is_space c = c == b' ' || leb 9 c && leb c 13

read_digits : ℕ → Bytes → ℕ
read_digits acc [] = acc
read_digits acc (c ∷ cs) =
    let rest = read_digits (acc * 10 + (c - b'0')) cs in if is_digit c then rest else acc

read_sign : Bytes → ℤ
read_sign [] = pos 0
read_sign (c ∷ cs) =
    if c == b'-'
    then neg (read_digits 0 cs)
    else if c == b'+'
    then pos (read_digits 0 cs)
    else pos (read_digits 0 (c ∷ cs))

-- `std::atoi`, before the result is forced into an `int`: leading space, a sign, digits.
unfoldable pub atoi : Bytes → ℤ
unfolding read_sign read_digits
atoi [] = pos 0
atoi (c ∷ cs) = if is_space c then atoi cs else read_sign (c ∷ cs)

-- Reading the digits of `n` behind `acc` shifts `acc` by as many places.
places : ℕ → ℕ → ℕ
places zero n = 10
places (suc f) n = let rest = places f (n / 10) in if ltb n 10 then 10 else rest * 10

sub_zero_digit : (d : ℕ) → d + b'0' - b'0' ≡ d
sub_zero_digit d = omega arith

read_digits_nil : (n : ℕ) → read_digits (0 * places n n + n) [] ≡ n
unfolding read_digits
read_digits_nil n = omega arith

read_digits_digit :
    (d acc : ℕ) (rest : Bytes)
    → d < 10
    → read_digits acc ((d + b'0') ∷ rest) ≡ read_digits (acc * 10 + d) rest
unfolding read_digits
read_digits_digit d acc rest h = ground (arith, sub_zero_digit d)

read_digits-digits :
    (f n acc : ℕ) (rest : Bytes)
    → n ≤ f
    → read_digits acc (digits f n ++ rest) ≡ read_digits (acc * places f n + n) rest
unfolding digits places
read_digits-digits zero n acc rest h =
    read_digits_digit (n % 10) acc rest (omega arith)
    ∙ ap (λ (a : ℕ). read_digits a rest) (omega arith)
read_digits-digits (suc f) n acc rest h = elim (Bool-cases (ltb n 10)) [
  | inl small ↦ rw small (read_digits_digit n acc rest (ground arith))
  | inr big ↦
      rw (big, append_assoc)
        (read_digits-digits f (n / 10) acc ((n % 10 + b'0') ∷ rest) (ground arith)
          ∙ read_digits_digit (n % 10) _ rest (omega arith)
          ∙ ap (λ (a : ℕ). read_digits a rest) (omega arith))
]

read_digits-print_nat : (n : ℕ) → read_digits 0 (print_nat n) ≡ n
unfolding print_nat
read_digits-print_nat n =
    ap (read_digits 0) (sym (append-nil (digits n n)))
    ∙ read_digits-digits n n 0 [] (omega arith)
    ∙ read_digits_nil n

digits_head : (f n : ℕ) → (c : ℕ) × (cs : Bytes) × (digits f n ≡ c ∷ cs) × (is_digit c ≡ true)
unfolding digits
digits_head zero n = (n % 10 + b'0', [], refl, ground arith)
digits_head (suc f) n = elim (Bool-cases (ltb n 10)) [
  | inl small ↦ (n + b'0', [], rw small, ground arith)
  | inr big ↦
      let (c, cs, e, h) = digits_head f (n / 10) in (c, cs ++ (n % 10 + b'0') ∷ [], rw (big, e), h)
]

-- A printed number begins with a digit.
pub print_nat_head :
    (n : ℕ) → (c : ℕ) × (cs : Bytes) × (print_nat n ≡ c ∷ cs) × ((leb b'0' c && leb c b'9') ≡ true)
unfolding print_nat
print_nat_head n = digits_head n n

atoi_digit : (c : ℕ) (cs : Bytes) → is_digit c ≡ true → atoi (c ∷ cs) ≡ pos (read_digits 0 (c ∷ cs))
unfolding atoi
atoi_digit c cs h = ground arith

atoi_minus : (cs : Bytes) → atoi (b'-' ∷ cs) ≡ neg (read_digits 0 cs)
unfolding atoi
atoi_minus cs = refl

-- `atoi` reads back every printed integer.
pub atoi-to_string : (i : ℤ) → atoi (to_string i) ≡ i
unfolding to_string
atoi-to_string (pos n) =
    let (c, cs, e, h) = digits_head n n in
    rw e (atoi_digit c cs h) ∙ ap pos (rw e at (read_digits-print_nat n))
atoi-to_string (negsuc n) = atoi_minus (print_nat (suc n)) ∙ ap neg (read_digits-print_nat (suc n))
