-- ===== src/ErrorCode/Laws.antt =====
-- Conditions and messages agree.
use cpp_tricks.Prelude.{Bool, ◌≡◌, ◌↔◌, ◌||◌, false, true, arith, if◌then◌else◌}
use cpp_tricks.Prelude.Int.{ℤ, same_ℤ}
use cpp_tricks.Prelude.Text.{Text, codes}
use cpp_tricks.ErrorCode.{
  default_error_condition, equivalent, group_message, message, client, client_abort, server,
  server_busy, ipc, ipc_timeout, ipc_read, ipc_write,
}

-- A code is equivalent to a condition exactly if it is of the category and the condition is its default
-- condition.
pub equivalent_iff :
    (mine : Bool) (v c : ℤ)
    → (equivalent mine v c ≡ true) ↔ ((mine ≡ true) × (default_error_condition v ≡ c))
unfolding equivalent
equivalent_iff mine v c = ground arith

-- The default condition is a condition of its own group: it is its own default condition.
pub condition_twice :
    (v : ℤ) → default_error_condition (default_error_condition v) ≡ default_error_condition v
unfolding default_error_condition
condition_twice v = ground arith

-- The message of a group of codes.
unfoldable pub title : ℤ → Text
title c =
    if same_ℤ c client
    then codes "Client error"
    else if same_ℤ c server
    then codes "Server error"
    else if same_ℤ c ipc
    then codes "IPC error"
    else codes "Unknown error"

-- The codes with a message of their own.
abbrev pub has_message : ℤ → Bool
has_message v =
    same_ℤ v client_abort
    || same_ℤ v server_busy
    || same_ℤ v ipc_timeout
    || same_ℤ v ipc_read
    || same_ℤ v ipc_write

-- The message of a code without a message of its own is that of its default condition: "Client error",
-- "Server error" and "IPC error" for those three conditions, and "Unknown error" for `OK` and `Other`.
pub message_lem : (v : ℤ) → has_message v ≡ false → message v ≡ title (default_error_condition v)
unfolding default_error_condition group_message title message
message_lem v h = ground arith
