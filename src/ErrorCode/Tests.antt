-- ===== src/ErrorCode/Tests.antt =====
-- Tests of the error category, and its theorems at concrete codes.
use cpp_tricks.Prelude.{◌≡◌, refl}
use cpp_tricks.Prelude.Int.{pos}
use cpp_tricks.Prelude.Text.{codes}
use cpp_tricks.ErrorCode.{default_error_condition, message}

messages :
    (message (pos 2) ≡ codes "Client abort")
    × (message (pos 222) ≡ codes "IPC error")
    × (message (pos 567) ≡ codes "Unknown error")
unfolding message
messages = (refl, refl, refl)

-- `OK` has a condition of its own, and no message of its own.
ok_is_unknown :
    (default_error_condition (pos 0) ≡ pos 0) × (message (pos 0) ≡ codes "Unknown error")
unfolding default_error_condition message
ok_is_unknown = (refl, refl)
