-- ===== src/Server.antt =====
-- mcp-server: customer lookup and refunds over the Model Context Protocol.
pub mod Store
pub mod Ledger
pub mod Refunds
pub mod Transport
pub mod Schemas
pub mod Tools
mod Tests
