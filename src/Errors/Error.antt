-- ===== src/Errors/Error.antt =====
-- The class `Error` of error_stack/error.hpp and error_stack/error.cpp. Copies and moves are values.
use cpp_tricks.Prelude.{ℕ, ◌%◌, Bool, not, ◌&&◌, ◌==◌, [], ◌++◌, if◌then◌else◌}
use cpp_tricks.Prelude.Text.{Text, codes, is_empty, same_text, decimal}

-- `Error::Code::None` and `Error::Code::Failure`.
abbrev pub none_code : ℕ
none_code = 0xFFFFFFFF

abbrev pub failure : ℕ
failure = 1

pub record Error : Type 0 where
  pub code_ : ℕ
  pub tag_ : Text
  pub description_ : Text

-- `error_tag( const Error::Code& )`
unfoldable pub error_tag : ℕ → Text
error_tag c = codes "Generic error"

-- `Error()`
unfoldable pub none_error : Error
none_error = record { code_ = none_code; tag_ = []; description_ = [] }

-- `Error( code )`
unfoldable pub of_code : ℕ → Error
unfolding error_tag
of_code c = record { code_ = c; tag_ = error_tag c; description_ = [] }

-- `Error( code, tag, desc )`
unfoldable pub of_fields : ℕ → Text → Text → Error
of_fields c t d = record { code_ = c; tag_ = t; description_ = d }

-- `Error( e, format, ... )`, for an enumeration with this `error_tag` and a format that prints
-- `text`: the description is set if the size that `vsnprintf` reports is positive.
unfoldable pub format : (ℕ → Text) → ℕ → Text → Error
format tag e text = record {
  code_ = e % 4294967296;
  tag_ = tag e;
  description_ = if is_empty text then [] else text;
}

-- `operator==` and `operator!=`
unfoldable pub equal : Error → Error → Bool
equal a b = a.code_ == b.code_ && same_text a.tag_ b.tag_

unfoldable pub differs : Error → Error → Bool
unfolding equal
differs a b = not (equal a b)

unfoldable pub empty : Error → Bool
empty e = e.code_ == none_code

unfoldable pub clear : Error → Error
clear e = record { code_ = none_code; tag_ = []; description_ = [] }

-- The setter `tag( t )`.
unfoldable pub set_tag : Error → Text → Error
set_tag e t = record e { tag_ = t }

unfoldable pub to_string : Error → Text
to_string e = e.tag_ ++ (codes " (" ++ (decimal e.code_ ++ (codes ") " ++ e.description_)))
