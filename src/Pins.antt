-- ===== src/Pins.antt =====
-- The pins of the robot's main board, include/oomwoo_pins.h.
pub mod Pin
pub mod PortA
pub mod PortB
pub mod PortC
pub mod PortD
pub mod PortE
pub mod PortF
pub mod Signals
mod Tokens
mod Distinct
mod Documented
mod Tests
