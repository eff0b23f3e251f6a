-- ===== src/Gateway.antt =====
-- mcp-gateway: who may call which tool of the MCP server behind it.
pub mod JsonRpc
pub mod Auth
pub mod Policy
pub mod Proxy
pub mod App
pub mod Downstream
mod Tests
