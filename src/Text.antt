-- ===== src/Text.antt =====
-- What the sources use of the C++ standard library's strings: views, <cctype>, numbers in text.
mod View
mod Ctype
mod Number
mod Laws
unfoldable pub use View.*
unfoldable pub use Ctype.*
unfoldable pub use Number.*
pub use Laws.*
