-- ===== src/Prelude/Bits.antt =====
-- Single bits of a number, as C's `<<`, `&`, `|` and `^` with one bit on the right read and write them.
use cpp_tricks.Prelude.{
  ℕ, zero, suc, ◌+◌, ◌-◌, ◌*◌, ◌/◌, ◌%◌, ◌^◌, ◌<◌, ◌≡◌, ◌≢◌, refl, ap, ◌∙◌, Bool, true, not, arith,
  ◌==◌, if◌then◌else◌,
}

-- `x & ( 1 << i )` is not 0.
unfoldable pub bit : ℕ → ℕ → Bool
bit x zero = x % 2 == 1
bit x (suc i) = bit (x / 2) i

-- `x | ( 1 << i )`
unfoldable pub set_bit : ℕ → ℕ → ℕ
set_bit x zero = x + (1 - x % 2)
set_bit x (suc i) = 2 * set_bit (x / 2) i + x % 2

-- `x ^ ( 1 << i )`
unfoldable pub flip_bit : ℕ → ℕ → ℕ
flip_bit x zero = if x % 2 == 1 then x - 1 else x + 1
flip_bit x (suc i) = 2 * flip_bit (x / 2) i + x % 2

-- Half of 2 y and a digit.
half_of : (x y : ℕ) → (2 * y + x % 2) / 2 ≡ y
half_of x y = omega arith

pub bit-set_bit_self : (x i : ℕ) → bit (set_bit x i) i ≡ true
unfolding bit set_bit
bit-set_bit_self x zero = ground arith
bit-set_bit_self x (suc i) =
    ap (λ y. bit y i) (half_of x (set_bit (x / 2) i)) ∙ bit-set_bit_self (x / 2) i

pub bit-set_bit_ne : (x i j : ℕ) → i ≢ j → bit (set_bit x i) j ≡ bit x j
unfolding bit set_bit
bit-set_bit_ne x zero zero h = absurd (h refl)
bit-set_bit_ne x zero (suc j) h = ap (λ y. bit y j) (omega arith)
bit-set_bit_ne x (suc i) zero h = ground arith
bit-set_bit_ne x (suc i) (suc j) h =
    ap (λ y. bit y j) (half_of x (set_bit (x / 2) i))
    ∙ bit-set_bit_ne (x / 2) i j (λ e. h (ap suc e))

pub bit-flip_bit_self : (x i : ℕ) → bit (flip_bit x i) i ≡ not (bit x i)
unfolding bit flip_bit
bit-flip_bit_self x zero = ground arith
bit-flip_bit_self x (suc i) =
    ap (λ y. bit y i) (half_of x (flip_bit (x / 2) i)) ∙ bit-flip_bit_self (x / 2) i

pub bit-flip_bit_ne : (x i j : ℕ) → i ≢ j → bit (flip_bit x i) j ≡ bit x j
unfolding bit flip_bit
bit-flip_bit_ne x zero zero h = absurd (h refl)
bit-flip_bit_ne x zero (suc j) h = ap (λ y. bit y j) (ground arith)
bit-flip_bit_ne x (suc i) zero h = ground arith
bit-flip_bit_ne x (suc i) (suc j) h =
    ap (λ y. bit y j) (half_of x (flip_bit (x / 2) i))
    ∙ bit-flip_bit_ne (x / 2) i j (λ e. h (ap suc e))

pub set_bit-lt : (x i n : ℕ) → i < n → x < 2 ^ n → set_bit x i < 2 ^ n
unfolding set_bit
set_bit-lt x i zero h k = absurd (omega arith)
set_bit-lt x zero (suc n) h k = omega arith
set_bit-lt x (suc i) (suc n) h k = omega (arith, set_bit-lt (x / 2) i n (omega arith) (omega arith))

pub flip_bit-lt : (x i n : ℕ) → i < n → x < 2 ^ n → flip_bit x i < 2 ^ n
unfolding flip_bit
flip_bit-lt x i zero h k = absurd (omega arith)
flip_bit-lt x zero (suc n) h k = ground arith
flip_bit-lt x (suc i) (suc n) h k =
    omega (arith, flip_bit-lt (x / 2) i n (omega arith) (omega arith))
