-- ===== src/Go.antt =====
-- What the program uses of the language and its standard library: int32, time, float64, formatting.
pub mod Int32
pub mod Time
pub mod Error
pub mod Map
pub mod Float
pub mod Order
pub mod Milli
