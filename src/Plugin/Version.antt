-- ===== src/Plugin/Version.antt =====
-- `plugin::Version`.
use cpp_tricks.Prelude.{suc, Bool, true, false, not, ◌&&◌, ◌++◌, if◌then◌else◌}
use cpp_tricks.Prelude.Int.{ℤ, pos, negsuc, ltb_ℤ, same_ℤ}
use cpp_tricks.Prelude.Text.{Text, codes, decimal}

pub record Version : Type 0 where
  pub major_ : ℤ
  pub minor_ : ℤ
  pub patch_ : ℤ

-- `std::to_string` of an int.
unfoldable pub decimal_int : ℤ → Text
decimal_int (pos n) = decimal n
decimal_int (negsuc n) = codes "-" ++ decimal (suc n)

-- `operator==` and `operator!=`
unfoldable pub equal : Version → Version → Bool
equal v rhs =
    same_ℤ v.major_ rhs.major_ && (same_ℤ v.minor_ rhs.minor_ && same_ℤ v.patch_ rhs.patch_)

-- `operator<`
unfoldable pub less : Version → Version → Bool
less v rhs =
    if ltb_ℤ v.major_ rhs.major_
    then true
    else if ltb_ℤ rhs.major_ v.major_
    then false
    else if ltb_ℤ v.minor_ rhs.minor_
    then true
    else if ltb_ℤ rhs.minor_ v.minor_
    then false
    else ltb_ℤ v.patch_ rhs.patch_

-- `operator>`
unfoldable pub greater : Version → Version → Bool
unfolding equal less
greater v rhs = not (equal v rhs) && not (less v rhs)

unfoldable pub to_string : Version → Text
unfolding decimal_int
to_string v =
    decimal_int v.major_
    ++ (codes "." ++ (decimal_int v.minor_ ++ (codes "." ++ decimal_int v.patch_)))
