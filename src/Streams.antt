-- ===== src/Streams.antt =====
-- Provider output: pkg/adapters/provideroutput, pkg/adapters/providerstream and
-- pkg/adapters/claude_output.go. Bytes are numbers; an operation that holds the observer's lock is
-- one step.
pub mod Output
pub mod Lines
pub mod ClaudeResult
pub mod CodexTools
pub mod ClaudeTools
mod Tests
