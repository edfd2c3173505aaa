-- ===== src/ErrorCode.antt =====
-- error_code/error_code.cpp: the category `MyErrorCategory_t`. The error values are an `enum` over
-- `int`; a condition is its value and whether it is one of this category, which all conditions here
-- are.
pub mod Laws
mod Tests
use cpp_tricks.Prelude.{Bool, ◌&&◌, if◌then◌else◌}
use cpp_tricks.Prelude.Int.{ℤ, pos, ltb_ℤ, leb_ℤ, same_ℤ}
use cpp_tricks.Prelude.Text.{Text, codes}

-- `MyErrorCodes`
abbrev pub ok : ℤ
ok = pos 0

abbrev pub client : ℤ
client = pos 1

abbrev pub client_abort : ℤ
client_abort = pos 2

abbrev pub server : ℤ
server = pos 100

abbrev pub server_busy : ℤ
server_busy = pos 101

abbrev pub ipc : ℤ
ipc = pos 200

abbrev pub ipc_timeout : ℤ
ipc_timeout = pos 201

abbrev pub ipc_read : ℤ
ipc_read = pos 202

abbrev pub ipc_write : ℤ
ipc_write = pos 203

abbrev pub other : ℤ
other = pos 300

-- `from <= v && v < to`
abbrev pub within : ℤ → ℤ → ℤ → Bool
within from to v = leb_ℤ from v && ltb_ℤ v to

unfoldable pub name : Text
name = codes "My Error"

unfoldable pub default_error_condition : ℤ → ℤ
default_error_condition v =
    if same_ℤ v ok
    then ok
    else if within client server v
    then client
    else if within server ipc v
    then server
    else if within ipc other v
    then ipc
    else other

-- `equivalent( code, condition )`: the first argument says whether the code is of this category.
unfoldable pub equivalent : Bool → ℤ → ℤ → Bool
unfolding default_error_condition
equivalent mine v condition = mine && same_ℤ (default_error_condition v) condition

-- The conditions behind the `switch` of `message`.
unfoldable pub group_message : ℤ → Text
group_message v =
    if within client server v
    then codes "Client error"
    else if within server ipc v
    then codes "Server error"
    else if within ipc other v
    then codes "IPC error"
    else codes "Unknown error"

unfoldable pub message : ℤ → Text
unfolding group_message
message v =
    if same_ℤ v client_abort
    then codes "Client abort"
    else if same_ℤ v server_busy
    then codes "Server busy"
    else if same_ℤ v ipc_timeout
    then codes "IPC timeout"
    else if same_ℤ v ipc_read
    then codes "IPC read"
    else if same_ℤ v ipc_write
    then codes "IPC write"
    else group_message v
