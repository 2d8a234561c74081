-- ===== src/Routing.antt =====
-- The routing core: include/alpha/routing and src/alpha/routing.
pub mod Pop
pub mod Validation
pub mod Registry
pub mod BgpOracle
pub mod Doubles
pub mod QosPolicy
pub mod IngressSelector
pub mod FailoverPolicy
pub mod PathSelection
pub mod PolicyBinding
mod Tests
