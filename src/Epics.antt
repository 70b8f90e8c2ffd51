-- ===== src/Epics.antt =====
-- The EPICS back end: the update queue of a server, the manager of values, and its registry.
pub mod Queue
pub mod InputServer
pub mod Manager
pub mod IoClient
pub mod Delivery
