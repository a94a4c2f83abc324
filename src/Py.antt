-- ===== src/Py.antt =====
-- Python's values and its standard library, as far as the code uses them.
mod Float
mod Value
mod Platform
pub use Float.*
unfoldable pub use Value.*
unfoldable pub use Platform.*
