-- ===== src/Tests.antt =====
-- Concrete runs at which the theorems apply.
mod Fixtures
mod Settings
mod Signatures
mod Exchanges
mod Messages
mod Identifiers
mod Codec
mod Building
mod Delivery
mod Requests
mod Conversations
