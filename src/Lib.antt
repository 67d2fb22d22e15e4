-- ===== src/Lib.antt =====
-- OpenLinker Agent Node: a model of the program's own decisions and state, and theorems about it.
--
-- Parts, with the code that they translate (paths from the repository's root):
--   Base: shared names, Boolean tests, lists, text, association maps, results.
--   Patterns: the identifier patterns of pkg/adapters/agentdelegation and skillpackages.
--   Broker: pkg/adapters/agentdelegation. The request ledger and delegate_agent (Delegate), the
--     reads and waits (Reads), EnsureComplete (Complete), one tool call (Call), bound MCP tools
--     (Tools), and the validation of targets and tools (Validation).
--   A2a: internal/agentnode/public_a2a_server.go. The response writer that holds back a 502
--     (Response), the handlers (Handlers), and the life of server and proxy (Lifecycle).
--   Config: internal/agentnode/config.go, util.go and session_isolation.go (NewFromLookup in
--     Startup, adapterFromEnv in Adapter, the isolation settings in Isolation) and Validate of
--     pkg/adapters/sessionsandbox/config.go (Sandbox).
--   Sessions: pkg/adapters/providersession and pkg/adapters/session.go. The store file (Store), the
--     cursor of the history (History), loading, saving and scoping a session (Scope), and the
--     locks of sessions as the atomic steps of their callers (Locks).
--   Skills: pkg/adapters/skillpackages (packages.go, recovery.go). The snapshot (Decode), the tree of
--     files below the cache (Disk), materialize (Materialize), recoverPrivatePackage and
--     writeCacheIgnore (Recovery), Load (Load), SessionMode and Instructions (Instructions).
--   Streams: pkg/adapters/provideroutput (Output) and pkg/adapters/providerstream: the line
--     observer (Lines), what is reported of Codex (CodexTools) and of Claude (ClaudeTools); and
--     pkg/adapters/claude_output.go (ClaudeResult).
--   CodexTurn: pkg/adapters/codexturn/turn.go. The calls that open the thread and the turn (Open),
--     the handling of events and the loop (Events), the interruption (Interrupt).
--   CodexRpc: pkg/adapters/codexrpc/client.go. The answers to the server's requests (Deny) and the
--     steps of calls, read loop and write loop (Steps).
--   Helper: internal/agentnode/helper_server.go. The sessions and their tokens (Sessions), the
--     requests that reach a run (Scoped).
--   Node: internal/agentnode/node.go and adapter_result.go. Start with its cleanup (Lifecycle), one
--     assignment (Handling), the normal form of results (Results).
--   Provider: pkg/adapters. The name of a session's storage (Scope), the storage and its environment
--     (Storage, Environment: sessionsandbox/session.go), isolation.go (Isolated), host_auth_gate.go
--     (Gate), model_endpoint.go (Endpoint), delegation.go (Delegating).
--
-- How they interact: Config decides which adapter runs and with which isolation. Node
-- starts Helper and A2a, and gives an assignment to the adapter with a session of Helper. Provider
-- prepares its storage, waits at the gate and starts a broker around it. The adapter
-- runs a model client (CodexTurn over CodexRpc, for Codex) whose output goes through Streams,
-- and whose session is resumed and saved through Sessions; the client's delegation tools are
-- calls of Broker, and Skills gives it the files of the owner's packages. A2a serves the public
-- listener that Config describes.
--
-- State and effects: an operation takes the state of its component and returns the new one. What
-- runs outside (the SDK's callbacks, JSON, SHA-256, the clock, sockets, the file system, the
-- platform) is a parameter: a record of functions over a state of the world, or the list of what
-- happened. Locks are not modelled where an operation holds one from its first read to its last
-- write: such operations are atomic steps. The RPC client runs its calls and loops side by side:
-- its steps come in any order. Error values keep what the callers tell apart; some texts of one
-- cause share a constructor.
--
-- Numbers: bytes and code points are natural numbers; a Duration is its int64 as two's
-- complement and wraps; a generation is a uint64 and wraps.
--
-- Fuel: the read loop of the broker runs on 31 rounds, one for each second of the longest wait
-- and one more. All other loops are structural: on the data, or on the list of signals that a
-- select gives, where none stands for a loop that still waits.
--
-- Not modelled: the command line and credentials under cmd and internal/agentnode, processes and
-- permissions of each operating system, generated protocol types, test doubles, and, as parts
-- that the library can grow by, the command lines of the providers and their native tool policy.
-- On the disk of Skills each file has one name, so a change through a hard link is left out. The
-- redirects by which Go's mux cleans a path before the handlers of A2a are left out. The RPC client
-- finds and fills a waiting call in one step.
pub mod A2a
pub mod Base
pub mod Broker
pub mod CodexRpc
pub mod CodexTurn
pub mod Config
pub mod Helper
pub mod Node
pub mod Patterns
pub mod Provider
pub mod Sessions
pub mod Skills
pub mod Streams
