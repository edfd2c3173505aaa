-- ===== src/Plugin.antt =====
-- plugin/libplugin.hpp and plugin/libplugin.cpp: the loader of plugins. The file system and the dynamic
-- linker are parameters.
pub mod Version
pub mod Identity
pub mod Order
pub mod Iterator
pub mod Search
pub mod Loader
pub mod Laws
mod Tests
