-- ===== src/Base/Ors.antt =====
-- `bit_or` of unsigned words: it works on the high and on the low digits apart.
use Prim.Native.Nat.{
  ℕ, zero, suc, ◌+◌, ◌*◌, ◌/◌, ◌%◌, ◌^◌, ◌≤◌, ◌<◌, max, bit_or, digits, bit_or-bitwise,
}
use mathlib.Core.Path.{◌≡◌, refl, ap, ◌∙◌}
use native.Mathlib.Nat.{pow-suc}
use native.Mathlib.Omega.{arith}

abbrev or_on : ℕ → ℕ → ℕ → ℕ
or_on = digits (λ b. b) max

or_enough_fuel : (f g a b : ℕ) → a ≤ f → a ≤ g → or_on f a b ≡ or_on g a b
or_enough_fuel zero zero a b p q = refl
or_enough_fuel zero (suc g) zero b p q = refl
or_enough_fuel zero (suc g) (suc a) b p q = absurd (omega arith)
or_enough_fuel (suc f) zero zero b p q = refl
or_enough_fuel (suc f) zero (suc a) b p q = absurd (omega arith)
or_enough_fuel (suc f) (suc g) zero b p q = refl
or_enough_fuel (suc f) (suc g) (suc a) b p q =
    ap (λ t. t * 2 + max (suc a % 2) (b % 2))
      (or_enough_fuel f g (suc a / 2) (b / 2) (omega arith) (omega arith))

pub bit_or_digit : (a b : ℕ) → bit_or a b ≡ bit_or (a / 2) (b / 2) * 2 + max (a % 2) (b % 2)
bit_or_digit zero b = omega (arith, bit_or-bitwise 0 b, bit_or-bitwise 0 (b / 2))
bit_or_digit (suc a) b = omega (
  arith,
  bit_or-bitwise (suc a) b,
  bit_or-bitwise (suc a / 2) (b / 2),
  or_enough_fuel a (suc a / 2) (suc a / 2) (b / 2) (omega arith) (omega arith),
)

pub bit_or-lt : (k a b : ℕ) → a < 2 ^ k → b < 2 ^ k → bit_or a b < 2 ^ k
bit_or-lt zero a b p q =
    let x : a ≡ 0 = omega arith in
    let y : b ≡ 0 = omega arith in rw (x, y) (omega (arith, bit_or-bitwise 0 0))
bit_or-lt (suc k) a b p q = omega (
  arith,
  bit_or_digit a b,
  pow-suc 2 k,
  bit_or-lt k (a / 2) (b / 2) (omega (arith, pow-suc 2 k)) (omega (arith, pow-suc 2 k)),
)

double_high : (q k : ℕ) → q * 2 ^ suc k ≡ 2 * (q * 2 ^ k)
double_high q k = omega (arith, ap (λ (t : ℕ). q * t) (pow-suc 2 k))

-- Two words cut at the same digit.
pub bit_or_split :
    (k a x b y : ℕ)
    → x < 2 ^ k
    → y < 2 ^ k
    → bit_or (a * 2 ^ k + x) (b * 2 ^ k + y) ≡ bit_or a b * 2 ^ k + bit_or x y
bit_or_split zero a x b y p q =
    let x0 : x ≡ 0 = omega arith in
    let y0 : y ≡ 0 = omega arith in
    let ea : a * 2 ^ 0 + 0 ≡ a = omega arith in
    let eb : b * 2 ^ 0 + 0 ≡ b = omega arith in
    rw (x0, y0, ea, eb) (omega (arith, bit_or-bitwise 0 0))
bit_or_split (suc k) a x b y p q =
    let ha : (a * 2 ^ suc k + x) / 2 ≡ a * 2 ^ k + x / 2 = omega (arith, double_high a k) in
    let hb : (b * 2 ^ suc k + y) / 2 ≡ b * 2 ^ k + y / 2 = omega (arith, double_high b k) in
    let la : (a * 2 ^ suc k + x) % 2 ≡ x % 2 = omega (arith, double_high a k) in
    let lb : (b * 2 ^ suc k + y) % 2 ≡ y % 2 = omega (arith, double_high b k) in
    let whole = bit_or_digit (a * 2 ^ suc k + x) (b * 2 ^ suc k + y) in
    let whole' : bit_or (a * 2 ^ suc k + x) (b * 2 ^ suc k + y)
        ≡ bit_or (a * 2 ^ k + x / 2) (b * 2 ^ k + y / 2) * 2 + max (x % 2) (y % 2) =
      rw (ha, hb, la, lb) at whole in
    omega (
      arith,
      whole',
      bit_or_digit x y,
      double_high (bit_or a b) k,
      bit_or_split k a (x / 2) b (y / 2) (omega (arith, pow-suc 2 k)) (omega (arith, pow-suc 2 k)),
    )

bit_or-zero_on : (f a : ℕ) → a ≤ f → bit_or a 0 ≡ a
bit_or-zero_on zero zero h = omega (arith, bit_or-bitwise 0 0)
bit_or-zero_on zero (suc a) h = absurd (omega arith)
bit_or-zero_on (suc f) zero h = omega (arith, bit_or-bitwise 0 0)
bit_or-zero_on (suc f) (suc a) h =
    omega (arith, bit_or_digit (suc a) 0, bit_or-zero_on f (suc a / 2) (omega arith))

pub bit_or-zero : (a : ℕ) → bit_or a 0 ≡ a
bit_or-zero a = bit_or-zero_on a a (omega arith)

pub zero-bit_or : (b : ℕ) → bit_or 0 b ≡ b
zero-bit_or b = omega (arith, bit_or-bitwise 0 b)

-- A word whose low digits are 0 and one that has only those.
pub bit_or_apart : (k a y : ℕ) → y < 2 ^ k → bit_or (a * 2 ^ k) y ≡ a * 2 ^ k + y
bit_or_apart k a y h =
    let ea : a * 2 ^ k ≡ a * 2 ^ k + 0 = omega arith in
    let ey : y ≡ 0 * 2 ^ k + y = omega arith in
    let whole = bit_or_split k a 0 0 y (omega arith) h in
    let goal : bit_or (a * 2 ^ k) y ≡ bit_or a 0 * 2 ^ k + bit_or 0 y = rw (← ea, ← ey) at whole in
    goal ∙ rw (bit_or-zero a, zero-bit_or y)
