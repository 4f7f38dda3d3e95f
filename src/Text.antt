-- ===== src/Text.antt =====
-- The functions of Go's `strings` and `strconv` packages that the SDK calls, over byte lists.
-- Texts are ASCII: the spaces that Unicode has above U+007F are not spaces here.
mod Match
mod Cut
mod Quote
pub mod Decimal
pub mod Laws
unfoldable pub use Match.*
unfoldable pub use Cut.*
unfoldable pub use Quote.*
