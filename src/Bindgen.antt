-- ===== src/Bindgen.antt =====
-- bindgen: the runtime of generated clients (bindgen/rt),
-- and the lexer and the parser of interface files (bindgen/idl).
pub mod Codec
pub mod Lexer
pub mod Parser
pub mod Pool
pub mod Types
pub mod Wire
