-- ===== src/Average.antt =====
-- math/simple_moving_average.cpp: `SimpleMovingAverage<T>`, with `get` for `T` = `unsigned` and for
-- `T` = `int`. `size_t` has 64 bits. The sum of the `int` instance is taken without overflow, which is
-- undefined there.
pub mod Laws
mod Tests
use cpp_tricks.Prelude.{
  ℕ, ◌+◌, ◌-◌, ◌/◌, ◌%◌, ◌^◌, List, [], ◌∷◌, ◌++◌, Option, none, some, ◌&&◌, length, ltb, ◌==◌,
  if◌then◌else◌,
}
use cpp_tricks.Prelude.Int.{ℤ, pos, negsuc, ◌+ℤ◌}

pub record Average (T : Type 0) : Type 0 where
  pub window_size_ : ℕ
  pub items_ : List T

module _ {T : Type 0} where
  unfoldable pub new : ℕ → Average T
  new w = record { window_size_ = w; items_ = [] }

  -- `items_.pop_front()`
  unfoldable pub pop_front : List T → List T
  pop_front [] = []
  pop_front (x ∷ xs) = xs

  -- `put` after the `push_back`.
  unfoldable pub slide : ℕ → List T → List T
  unfolding pop_front
  slide w items = if ltb w (length items) then pop_front items else items

  unfoldable pub put : Average T → T → Average T
  unfolding slide
  put s v = record s { items_ = slide s.window_size_ (s.items_ ++ (v ∷ [])) }

  -- The number that the sum is divided by.
  unfoldable pub divisor : Average T → ℕ
  divisor s =
      let n = length s.items_ in if ltb 0 n && ltb n s.window_size_ then n else s.window_size_

-- The loop of `get` for `unsigned`.
unfoldable pub sum_unsigned : ℕ → List ℕ → ℕ
sum_unsigned ret [] = ret
sum_unsigned ret (i ∷ items) = sum_unsigned ((ret + i) % 2 ^ 32) items

-- The division at the end of `get` for `unsigned`; `none` is a division by zero.
unfoldable pub quotient : ℕ → ℕ → Option ℕ
quotient n ret = if n == 0 then none else some (ret / n % 2 ^ 32)

-- `get` for `unsigned`
unfoldable pub get_unsigned : Average ℕ → Option ℕ
unfolding quotient sum_unsigned divisor
get_unsigned s = quotient (divisor s) (sum_unsigned 0 s.items_)

-- The loop of `get` for `int`.
unfoldable pub sum_int : ℤ → List ℤ → ℤ
unfolding ◌+ℤ◌
sum_int ret [] = ret
sum_int ret (i ∷ items) = sum_int (ret +ℤ i) items

-- The conversions of an `int` to `size_t` and back.
unfoldable pub size_of_int : ℤ → ℕ
size_of_int (pos n) = n
size_of_int (negsuc n) = 2 ^ 64 - 1 - n

unfoldable pub int_of_size : ℕ → ℤ
int_of_size n = let m = n % 2 ^ 32 in if ltb m (2 ^ 31) then pos m else negsuc (2 ^ 32 - 1 - m)

-- `get` for `int`: the divisor is a `size_t`, so the sum is converted to one.
unfoldable pub get_int : Average ℤ → Option ℤ
unfolding sum_int size_of_int int_of_size divisor
get_int s =
    if divisor s == 0
    then none
    else some (int_of_size (size_of_int (sum_int (pos 0) s.items_) / divisor s))
