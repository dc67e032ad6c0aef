-- ===== src/Go.antt =====
-- What the program uses of Go itself: strings as bytes, maps, integers, JSON values and effects.
pub mod Str
pub mod Dict
pub mod Int
pub mod Strconv
pub mod Sort
pub mod Json
pub mod Exec
pub mod Hex
pub mod Split
pub mod Space
