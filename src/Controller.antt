-- ===== src/Controller.antt =====
-- src/controllers/logging: the controller of a logging.
pub mod Mapper
pub mod Watched
pub mod Reconcile
pub mod Chain
pub mod Override
