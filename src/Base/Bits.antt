-- ===== src/Base/Bits.antt =====
-- Masks and shifts of unsigned words as arithmetic, at every width.
use Prim.Native.Nat.{
  ℕ, zero, suc, ◌+◌, ◌-◌, ◌*◌, ◌/◌, ◌%◌, ◌^◌, ◌≤◌, ◌<◌, min, bit_and, digits, bit_and-bitwise,
}
use mathlib.Core.Path.{◌≡◌, refl, ap, ◌∙◌}
use native.Mathlib.Nat.{pow-suc, one-le-pow, mod-eq_of_lt, mod-lt, div-add-mod', div-lt_iff_lt-mul}
use native.Mathlib.Decide.{dec_lt}
use native.Mathlib.Omega.{arith}

abbrev pub u64_max : ℕ
u64_max = 2 ^ 64 - 1

-- `bit_and` runs through the binary digits on fuel, and any fuel that is enough gives one result.
abbrev and_on : ℕ → ℕ → ℕ → ℕ
and_on = digits (λ b. zero) min

enough_fuel : (f g a b : ℕ) → a ≤ f → a ≤ g → and_on f a b ≡ and_on g a b
enough_fuel zero zero a b p q = refl
enough_fuel zero (suc g) zero b p q = refl
enough_fuel zero (suc g) (suc a) b p q = absurd (omega arith)
enough_fuel (suc f) zero zero b p q = refl
enough_fuel (suc f) zero (suc a) b p q = absurd (omega arith)
enough_fuel (suc f) (suc g) zero b p q = refl
enough_fuel (suc f) (suc g) (suc a) b p q =
    ap (λ t. t * 2 + min (suc a % 2) (b % 2))
      (enough_fuel f g (suc a / 2) (b / 2) (omega arith) (omega arith))

-- The lowest digit of `bit_and`, and the rest.
pub bit_and_digit : (a b : ℕ) → bit_and a b ≡ bit_and (a / 2) (b / 2) * 2 + min (a % 2) (b % 2)
bit_and_digit zero b = omega (arith, bit_and-bitwise 0 b, bit_and-bitwise 0 (b / 2))
bit_and_digit (suc a) b = omega (
  arith,
  bit_and-bitwise (suc a) b,
  bit_and-bitwise (suc a / 2) (b / 2),
  enough_fuel a (suc a / 2) (suc a / 2) (b / 2) (omega arith) (omega arith),
)

bit_and-zero_on : (f a : ℕ) → a ≤ f → bit_and a 0 ≡ 0
bit_and-zero_on zero zero h = refl
bit_and-zero_on zero (suc a) h = absurd (omega arith)
bit_and-zero_on (suc f) zero h = refl
bit_and-zero_on (suc f) (suc a) h =
    omega (arith, bit_and_digit (suc a) 0, bit_and-zero_on f (suc a / 2) (omega arith))

pub bit_and-zero : (a : ℕ) → bit_and a 0 ≡ 0
bit_and-zero a = bit_and-zero_on a a (omega arith)

double : (q k : ℕ) → q * 2 ^ suc k ≡ 2 * (q * 2 ^ k)
double q k = omega (arith, ap (λ (t : ℕ). q * t) (pow-suc 2 k))

low_digits : (k q r : ℕ) → r < 2 ^ k → bit_and (q * 2 ^ k + r) (2 ^ k - 1) ≡ r
low_digits zero q r h = bit_and-zero (q * 1 + r) ∙ omega arith
low_digits (suc k) q r h = ground (
  arith,
  bit_and_digit (q * 2 ^ suc k + r) (2 ^ suc k - 1),
  double q k,
  pow-suc 2 k,
  one-le-pow k 2,
  low_digits k q (r / 2) (omega (arith, pow-suc 2 k)),
)

-- `x & (2 ^ k - 1)`
pub bit_and_low : (k a : ℕ) → bit_and a (2 ^ k - 1) ≡ a % 2 ^ k
bit_and_low k a = ground (arith, one-le-pow k 2, low_digits k (a / 2 ^ k) (a % 2 ^ k))

high_digits :
    (k d q r : ℕ)
    → r < 2 ^ k
    → q < 2 ^ d
    → bit_and (q * 2 ^ k + r) ((2 ^ d - 1) * 2 ^ k) ≡ q * 2 ^ k
high_digits zero d q r h top =
    let plain : q * 1 + r ≡ q = omega arith in
    let ones : (2 ^ d - 1) * 1 ≡ 2 ^ d - 1 = omega arith in
    rw (plain, ones, bit_and_low d q, mod-eq_of_lt top) (omega arith)
high_digits (suc k) d q r h top = ground (
  arith,
  bit_and_digit (q * 2 ^ suc k + r) ((2 ^ d - 1) * 2 ^ suc k),
  double q k,
  double (2 ^ d - 1) k,
  high_digits k d q (r / 2) (omega (arith, pow-suc 2 k)),
)

pub pow-add : (d k : ℕ) → 2 ^ (d + k) ≡ 2 ^ d * 2 ^ k
pow-add d zero = let e : d + 0 ≡ d = omega arith in rw e (omega arith)
pow-add d (suc k) =
    let e : d + suc k ≡ suc (d + k) = omega arith in
    rw e (omega (arith, pow-suc 2 (d + k), pow-add d k, double (2 ^ d) k))

sub_low : (a b : ℕ) → 0 < a → 0 < b → (a - 1) * b ≡ a * b - 1 - (b - 1)
sub_low zero b p q = absurd (omega arith)
sub_low (suc a) b p q = let e : suc a - 1 ≡ a = omega arith in rw e (omega arith)

-- `x & !(2 ^ k - 1)`, where `!` flips the digits of a word of `d + k` of them
pub bit_and_high :
    (d k x : ℕ) → x < 2 ^ (d + k) → bit_and x (2 ^ (d + k) - 1 - (2 ^ k - 1)) ≡ x / 2 ^ k * 2 ^ k
bit_and_high d k x h = rw (mask) at (
    rw (split) at (
      high_digits k d (x / 2 ^ k) (x % 2 ^ k) (mod-lt x (one-le-pow k 2 (omega arith)))
        ((div-lt_iff_lt-mul (one-le-pow k 2 (omega arith))).1 (rw (← pow-add d k) h))))
  where
    split : x / 2 ^ k * 2 ^ k + x % 2 ^ k ≡ x
    split = div-add-mod' x (2 ^ k)

    mask : (2 ^ d - 1) * 2 ^ k ≡ 2 ^ (d + k) - 1 - (2 ^ k - 1)
    mask =
        rw (pow-add d k)
          (sub_low (2 ^ d) (2 ^ k) (one-le-pow d 2 (omega arith)) (one-le-pow k 2 (omega arith)))

-- `u64::count_ones`, on the digits that are left
abbrev pub count_ones_on : ℕ → ℕ → ℕ
count_ones_on zero n = 0
count_ones_on (suc digits_left) n = n % 2 + count_ones_on digits_left (n / 2)

count_ones-zero : (f n : ℕ) → n < 2 ^ f → count_ones_on f n ≡ 0 → n ≡ 0
count_ones-zero zero n h e = omega arith
count_ones-zero (suc f) n h e =
    omega (arith, count_ones-zero f (n / 2) (omega (arith, pow-suc 2 f)) (omega arith))

-- A word with one digit set is a power of two.
pub count_ones-one : (f n : ℕ) → n < 2 ^ f → count_ones_on f n ≡ 1 → (k : ℕ) × (k < f) × (n ≡ 2 ^ k)
count_ones-one zero n h e = absurd (omega arith)
count_ones-one (suc f) n h e = elim (dec_lt 0 (n % 2)) [
  | yes odd ↦ (
    0,
    omega arith,
    omega (arith, count_ones-zero f (n / 2) (omega (arith, pow-suc 2 f)) (omega arith)),
  )
  | no even ↦
      let (k, below, shape) = count_ones-one f (n / 2) (omega (arith, pow-suc 2 f)) (omega arith) in
      (suc k, omega arith, omega (arith, pow-suc 2 k))
]

-- The same for a word of 64 digits.
pub bit_and_high64 :
    (k x : ℕ) → k ≤ 64 → x < 2 ^ 64 → bit_and x (u64_max - (2 ^ k - 1)) ≡ x / 2 ^ k * 2 ^ k
bit_and_high64 k x h below =
    let e : 64 - k + k ≡ 64 = omega arith in rw e at (bit_and_high (64 - k) k x (rw e below))
