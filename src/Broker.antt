-- ===== src/Broker.antt =====
-- broker/src: the approval hub and the decision procedure for a publish request.
pub mod Hub
pub mod Handler
pub mod Git
pub mod Config
