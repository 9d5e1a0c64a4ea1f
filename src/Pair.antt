-- ===== src/Pair.antt =====
-- internal/pair: the pre-shared key of the hub and the exchange of a short code for it.
pub mod Codes
pub mod Keys
pub mod FileWindow
pub mod Budget
pub mod KeyFile
pub mod Simulation
pub mod Refinement
mod Examples
