-- ===== src/Csi.antt =====
-- cmd/plugin: the CSI services of the driver.
pub mod Requests
pub mod Node
pub mod Controller
mod Samples
