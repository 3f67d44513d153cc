-- ===== src/Base/Bits.antt =====
-- Exclusive or at variables: a byte masked twice with one mask is the byte again.
use Prim.Native.Nat.{
  ℕ, zero, suc, ◌+◌, ◌*◌, ◌/◌, ◌%◌, ◌≤◌, ◌<◌, ◌^◌, digits, differ, bit_xor, bit_xor-bitwise,
}
use mathlib.Core.Path.{◌≡◌, refl, ◌∙◌}
use native.Mathlib.Omega.{arith}
use native.Mathlib.Nat.{le_refl, pow-suc}

abbrev xor_digits : ℕ → ℕ → ℕ → ℕ
xor_digits = digits (λ b. b) differ

xor_digits_fuel : (n m a b : ℕ) → a ≤ n → a ≤ m → xor_digits n a b ≡ xor_digits m a b
xor_digits_fuel zero zero a b p q = refl
xor_digits_fuel zero (suc m) zero b p q = refl
xor_digits_fuel zero (suc m) (suc a) b p q = absurd (omega arith)
xor_digits_fuel (suc n) zero zero b p q = refl
xor_digits_fuel (suc n) zero (suc a) b p q = absurd (omega arith)
xor_digits_fuel (suc n) (suc m) zero b p q = refl
xor_digits_fuel (suc n) (suc m) (suc a) b p q =
    rw (xor_digits_fuel n m (suc a / 2) (b / 2) (omega arith) (omega arith))

-- The law for the lowest digit of a positive number.
bit_xor_step :
    (a b : ℕ) → bit_xor (suc a) b ≡ bit_xor (suc a / 2) (b / 2) * 2 + differ (suc a % 2) (b % 2)
bit_xor_step a b = omega (
  arith,
  bit_xor-bitwise (suc a) b,
  bit_xor-bitwise (suc a / 2) (b / 2),
  xor_digits_fuel a (suc a / 2) (suc a / 2) (b / 2) (omega arith) (le_refl _),
)

zero-bit_xor : (b : ℕ) → bit_xor 0 b ≡ b
zero-bit_xor b = bit_xor-bitwise 0 b

bit_xor_digit : (a b : ℕ) → bit_xor a b ≡ bit_xor (a / 2) (b / 2) * 2 + differ (a % 2) (b % 2)
bit_xor_digit zero b = rw (zero-bit_xor b, zero-bit_xor (b / 2)) (omega arith)
bit_xor_digit (suc a) b = bit_xor_step a b

differ_digits : (x y : ℕ) → x < 2 → y < 2 → (differ x y < 2) × (differ (differ x y) y ≡ x)
differ_digits zero zero p q = (omega arith, refl)
differ_digits zero (suc zero) p q = (omega arith, refl)
differ_digits zero (suc (suc y)) p q = absurd (omega arith)
differ_digits (suc zero) zero p q = (omega arith, refl)
differ_digits (suc zero) (suc zero) p q = (omega arith, refl)
differ_digits (suc zero) (suc (suc y)) p q = absurd (omega arith)
differ_digits (suc (suc x)) y p q = absurd (omega arith)

bit_xor_parts :
    (a b : ℕ)
    → (bit_xor a b / 2 ≡ bit_xor (a / 2) (b / 2)) × (bit_xor a b % 2 ≡ differ (a % 2) (b % 2))
bit_xor_parts a b =
    let d = differ_digits (a % 2) (b % 2) (omega arith) (omega arith) in
    (omega (arith, bit_xor_digit a b), omega (arith, bit_xor_digit a b))

halves_eq : (x y : ℕ) → x / 2 ≡ y / 2 → x % 2 ≡ y % 2 → x ≡ y
halves_eq x y p q = omega arith

-- One digit of the law, from the law for the halves.
bit_xor_twice_digit :
    (a m : ℕ) → bit_xor (bit_xor (a / 2) (m / 2)) (m / 2) ≡ a / 2 → bit_xor (bit_xor a m) m ≡ a
bit_xor_twice_digit a m ih = halves_eq _ _ half digit
  where
    half : bit_xor (bit_xor a m) m / 2 ≡ a / 2
    half = (bit_xor_parts (bit_xor a m) m).0 ∙ rw (bit_xor_parts a m).0 ih

    digit : bit_xor (bit_xor a m) m % 2 ≡ a % 2
    digit =
        (bit_xor_parts (bit_xor a m) m).1
        ∙ rw (bit_xor_parts a m).1 (differ_digits (a % 2) (m % 2) (omega arith) (omega arith)).1

bit_xor_twice_fuel : (n a m : ℕ) → a + m ≤ n → bit_xor (bit_xor a m) m ≡ a
bit_xor_twice_fuel zero zero zero h = refl
bit_xor_twice_fuel zero zero (suc m) h = absurd (omega arith)
bit_xor_twice_fuel zero (suc a) m h = absurd (omega arith)
bit_xor_twice_fuel (suc n) zero zero h = refl
bit_xor_twice_fuel (suc n) zero (suc m) h =
    bit_xor_twice_digit 0 (suc m) (bit_xor_twice_fuel n (0 / 2) (suc m / 2) (omega arith))
bit_xor_twice_fuel (suc n) (suc a) m h =
    bit_xor_twice_digit (suc a) m (bit_xor_twice_fuel n (suc a / 2) (m / 2) (omega arith))

-- Masking twice gives the number back.
pub bit_xor_twice : (a m : ℕ) → bit_xor (bit_xor a m) m ≡ a
bit_xor_twice a m = bit_xor_twice_fuel (a + m) a m (le_refl _)

pub bit_xor-lt : (k a b : ℕ) → a < 2 ^ k → b < 2 ^ k → bit_xor a b < 2 ^ k
bit_xor-lt zero a b p q =
    let ea : a ≡ 0 = omega arith in let eb : b ≡ 0 = omega arith in rw (ea, eb) p'
  where
    p' : bit_xor 0 0 < 2 ^ 0
    p' = omega arith
bit_xor-lt (suc k) a b p q = omega (
  arith,
  pow-suc 2 k,
  (bit_xor_parts a b).0,
  bit_xor-lt k (a / 2) (b / 2) (omega (arith, pow-suc 2 k)) (omega (arith, pow-suc 2 k)),
)
