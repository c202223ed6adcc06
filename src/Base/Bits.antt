-- ===== src/Base/Bits.antt =====
-- `bit_or` of a number whose low digits are 0 with a smaller one, and with a 1.
use Prim.Native.Nat.{
  ℕ, zero, suc, ◌+◌, ◌*◌, ◌/◌, ◌%◌, ◌≤◌, ◌<◌, max, bit_or, digits, bit_or-bitwise,
}
use mathlib.Core.Path.{◌≡◌, refl, sym, ap, ◌∙◌, subst}
use native.Mathlib.Omega.{arith}

abbrev or_digits : ℕ → ℕ → ℕ → ℕ
or_digits n a b = digits (λ b. b) max n a b

or_digits_fuel : (n m a b : ℕ) → a ≤ n → a ≤ m → or_digits n a b ≡ or_digits m a b
or_digits_fuel zero zero a b p q = refl
or_digits_fuel zero (suc m) zero b p q = refl
or_digits_fuel zero (suc m) (suc a) b p q = absurd (omega arith)
or_digits_fuel (suc n) zero zero b p q = refl
or_digits_fuel (suc n) zero (suc a) b p q = absurd (omega arith)
or_digits_fuel (suc n) (suc m) zero b p q = refl
or_digits_fuel (suc n) (suc m) (suc a) b p q =
    omega (arith, or_digits_fuel n m (suc a / 2) (b / 2) (omega arith) (omega arith))

pub zero-bit_or : (b : ℕ) → bit_or 0 b ≡ b
zero-bit_or b = bit_or-bitwise 0 b

-- the lowest digit and the others
pub bit_or_step : (a b : ℕ) → bit_or a b ≡ bit_or (a / 2) (b / 2) * 2 + max (a % 2) (b % 2)
bit_or_step zero b = omega (arith, zero-bit_or b, zero-bit_or (b / 2))
bit_or_step (suc a) b = omega (
  arith,
  bit_or-bitwise (suc a) b,
  bit_or-bitwise (suc a / 2) (b / 2),
  or_digits_fuel a (suc a / 2) (suc a / 2) (b / 2) (omega arith) (omega arith),
)

bit_or-zero_fuel : (n a : ℕ) → a ≤ n → bit_or a 0 ≡ a
bit_or-zero_fuel n zero h = refl
bit_or-zero_fuel zero (suc a) h = absurd (omega arith)
bit_or-zero_fuel (suc n) (suc a) h =
    omega (arith, bit_or_step (suc a) 0, bit_or-zero_fuel n (suc a / 2) (omega arith))

pub bit_or-zero : (a : ℕ) → bit_or a 0 ≡ a
bit_or-zero a = bit_or-zero_fuel a a (omega arith)

-- a number with k digits 0 at its end, and the least number with more than k digits
abbrev correr : ℕ → ℕ → ℕ
correr zero p = p
correr (suc k) p = correr k p * 2

abbrev tope : ℕ → ℕ
tope zero = 1
tope (suc k) = tope k * 2

bit_or-correr : (k p q : ℕ) → q < tope k → bit_or (correr k p) q ≡ correr k p + q
bit_or-correr zero p q h =
    let e : 0 ≡ q = omega arith in subst (λ x. bit_or p x ≡ p + x) e (omega (arith, bit_or-zero p))
bit_or-correr (suc k) p q h = omega (
  arith,
  bit_or_step (correr (suc k) p) q,
  bit_or-correr k p (q / 2) (omega arith),
  ap (λ (x : ℕ). bit_or x (q / 2)) (mitad (correr k p)),
)
  where
    mitad : (x : ℕ) → x * 2 / 2 ≡ x
    mitad x = omega arith

-- the address of a page and an offset in it
pub bit_or-pagina : (p q : ℕ) → q < 4096 → bit_or (p * 4096) q ≡ p * 4096 + q
bit_or-pagina p q h =
    ap (λ (x : ℕ). bit_or x q) (omega arith) ∙ bit_or-correr 12 p q h ∙ omega arith

pub bit_or-one : (a : ℕ) → bit_or a 1 ≡ a / 2 * 2 + 1
bit_or-one a = omega (arith, bit_or_step a 1, bit_or-zero (a / 2))

bit_or-half : (a b : ℕ) → bit_or a b / 2 ≡ bit_or (a / 2) (b / 2)
bit_or-half a b = omega (arith, bit_or_step a b)

abbrev mitades : ℕ → ℕ → ℕ
mitades zero a = a
mitades (suc k) a = mitades k (a / 2)

bit_or-mitades : (k a b : ℕ) → mitades k (bit_or a b) ≡ bit_or (mitades k a) (mitades k b)
bit_or-mitades zero a b = refl
bit_or-mitades (suc k) a b = ap (mitades k) (bit_or-half a b) ∙ bit_or-mitades k (a / 2) (b / 2)

-- the page of an address made of two
pub bit_or-pgnum : (a b : ℕ) → bit_or a b / 4096 ≡ bit_or (a / 4096) (b / 4096)
bit_or-pgnum a b =
    cociente (bit_or a b)
    ∙ bit_or-mitades 12 a b
    ∙ (λ i. bit_or (sym (cociente a) i) (sym (cociente b) i))
  where
    cociente : (x : ℕ) → x / 4096 ≡ mitades 12 x
    cociente x = omega arith
