-- ===== src/Led/Client/State.antt =====
-- The masks of `Gpio::Led::State`.
use cpp_tricks.Prelude.{
  ℕ, ◌-◌, ◌≤◌, ◌<◌, ◌^◌, ◌≡◌, ◌≢◌, Bool, not, ◌||◌, arith, ◌==◌, if◌then◌else◌, ap, inl, inr,
  Bool-cases,
}
use cpp_tricks.Prelude.Bits.{
  bit, set_bit, flip_bit, bit-set_bit_self, bit-set_bit_ne, bit-flip_bit_self, bit-flip_bit_ne,
  set_bit-lt, flip_bit-lt,
}
use cpp_tricks.Led.Client.{LedState, set, get}

-- For ports from 2 to 27: `set` returns the port's state before; then the port is on if it was set on, and if it
-- was set off it is on exactly if it was off before; every other port is as it was.
pub get-set :
    (p q : ℕ) (on : Bool) (s : LedState)
    → 2 ≤ p
    → p ≤ 27
    → 2 ≤ q
    → q ≤ 27
    → ((set p on s).0 ≡ get p s)
      × (get q (set p on s).1 ≡ (if p == q then on || not (get p s) else get q s))
unfolding set get
get-set p q on s a b c d = elim (Bool-cases (p == q)) [
  | inl e ↦
      let same : q - 2 ≡ p - 2 = ground arith in
      ground (
        arith,
        ap (bit s.mask_) same,
        ap (bit (set_bit s.mask_ (p - 2))) same,
        ap (bit (flip_bit s.mask_ (p - 2))) same,
        bit-set_bit_self s.mask_ (p - 2),
        bit-flip_bit_self s.mask_ (p - 2),
      )
  | inr e ↦
      let other : p - 2 ≢ q - 2 = ground arith in
      ground (
        arith,
        bit-set_bit_ne s.mask_ (p - 2) (q - 2) other,
        bit-flip_bit_ne s.mask_ (p - 2) (q - 2) other,
      )
]

-- `set`, with any port, keeps a mask of 26 bits: the field of the command does not cut it.
pub set-lt : (p : ℕ) (on : Bool) (s : LedState) → s.mask_ < 2 ^ 26 → (set p on s).1.mask_ < 2 ^ 26
unfolding set
set-lt p on s h = ground (arith, set_bit-lt s.mask_ (p - 2) 26, flip_bit-lt s.mask_ (p - 2) 26)
