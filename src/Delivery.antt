-- ===== src/Delivery.antt =====
-- The delivery of reports by e-mail, julius/reporting/delivery.
pub mod Messages
pub mod Policy
pub mod Service
pub mod Permission
pub mod Once
mod Tests
