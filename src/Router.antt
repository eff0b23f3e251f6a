-- ===== src/Router.antt =====
-- llm-gateway-router: token-aware rate limiting and failover between model providers.
pub mod Store
pub mod Limit
pub mod Tokens
pub mod Providers
pub mod Errors
pub mod Route
pub mod App
pub mod Config
pub mod MockProvider
pub mod Auth
mod Tests
