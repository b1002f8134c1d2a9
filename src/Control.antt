-- ===== src/Control.antt =====
-- services/control-panel: the service that runs benchmarks of the reference engine, one request at a
-- time.
pub mod Model
pub mod Requests
pub mod Store
pub mod Execute
pub mod Manager
pub mod Slots
pub mod Sequences
pub mod Cancel
mod Tests
