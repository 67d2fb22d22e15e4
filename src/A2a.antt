-- ===== src/A2a.antt =====
-- internal/agentnode/public_a2a_server.go: the public A2A listener. The SDK's proxy and net/http
-- are outside: a response is the list of what is sent, and a proxy is what it writes.
pub mod Response
pub mod Handlers
pub mod Lifecycle
mod Tests
