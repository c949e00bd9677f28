-- ===== src/CustomerService.antt =====
-- examples/customer_service: a customer-service dialogue over the decision service.
pub mod Catalog
pub mod Texts
pub mod Store
pub mod Messages
pub mod Actions
pub mod Slots
pub mod Dialogue
pub mod Classifier
pub mod Sessions
mod Tests
