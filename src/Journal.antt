-- ===== src/Journal.antt =====
-- The journal: the packed reservation word, the ring of pin lists, and the pins.
pub mod PinFifo
pub mod Pins
pub mod ResState
mod Tests
