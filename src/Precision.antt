-- ===== src/Precision.antt =====
-- src/precision: the allocation-time precision predictor and the types it is made of.
pub mod Hysteresis
pub mod Policy
pub mod Lut
pub mod Predictor
mod Examples
