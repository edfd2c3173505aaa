-- ===== src/Errors.antt =====
-- error_stack/: an error with a code and a tag, and a stack of errors.
pub mod Error
pub mod Stack
pub mod Laws
mod Tests
