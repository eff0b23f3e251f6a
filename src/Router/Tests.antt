-- ===== src/Router/Tests.antt =====
-- Runs of the router's model on concrete inputs, and instances of its theorems.
mod Limiter
mod Routing
mod Tenants
mod Metering
mod Serving
mod Settings
