-- ===== src/State/Maps.antt =====
-- Directories as sorted lists of entries, with the laws of their operations.
mod Defs
mod Laws
unfoldable pub use Defs.{lookup, put, erase}
pub use Defs.{Map, sole, Above, Sorted}
pub use Laws.*
