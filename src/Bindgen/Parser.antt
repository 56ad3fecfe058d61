-- ===== src/Bindgen/Parser.antt =====
-- The parser of interface files (bindgen/idl/parse.go).
pub mod Words
pub mod Syntax
pub mod Monad
pub mod Grammar
pub mod Decls
pub mod Sound
pub mod Loops
pub mod Methods
pub mod Laws
mod Tests
pub mod Sentences
pub mod Reads
pub mod Accepts
