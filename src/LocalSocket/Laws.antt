-- ===== src/LocalSocket/Laws.antt =====
-- `send`.
use cpp_tricks.Prelude.Text.{Text}
use cpp_tricks.LocalSocket.{LocalSocket}
