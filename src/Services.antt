-- ===== src/Services.antt =====
-- internal/services: the domain layer.
pub mod Booking
pub mod Listing
pub mod Chat
pub mod Search
