-- ===== src/Lib.antt =====
-- Verification of the agent runtime SDK: the event journal, the interaction broker, the agent relay,
-- the remote host's request cache and framed streams, retained runtimes, remote shell commands
-- and supervised processes.
--
-- Parts and files
--   Journal: src/journal.rs. A runtime appends envelopes (src/retained.rs, `EventEnvelope`), a
--   client replays them in pages from its cursors. Journal/Types has the shared data,
--   Journal/Invocation is `InvocationJournal`, Journal/Runtime is `RuntimeJournal`,
--   Journal/Replay is `RuntimeJournal::replay`, and Journal/Store is `InMemoryEventJournal`, which
--   composes them.
--   Interactions: src/interactions.rs. Interactions/Registry is `Registry` with `register`,
--   `resolve` and the drop of a `WaitingGuard`. A provider registers a waiter, an application
--   resolves it, in either order.
--   Relay: src/relay. Relay/Message and Relay/Grant are the messages, grants and contexts of
--   src/relay/mod.rs, Relay/Inbound is `validate_inbound` of src/relay/inbound.rs, Relay/Bridge,
--   Relay/Tools and Relay/Calls are the budget and the tools of `AgentRelayMcpBridge` in
--   src/relay/mcp.rs. A call goes through the grant, the budget and the hop check to the
--   application's router.
--   Host: src/protocol_host.rs. Host/RequestCache is `RequestCache` with `claim_request` and the
--   completion and drop of `PendingRequestGuard`.
--   Stream: src/protocol_stream.rs. Stream/Frames reads and writes frames, Stream/Serve is the loop
--   that hands each frame to the host, Stream/Connection is `AuthenticatedStreamConnection` and
--   `StreamSink`.
--   Retained: src/retained.rs with the states and failures of src/lifecycle.rs. Retained/Entry is
--   `RuntimeEntry` and what each call and task does to it under its lock, Retained/Turns the loop of
--   `start_turn` and the interleaved steps, Retained/Input `validate_input`, Retained/Sink
--   `ChannelEventSink` and the events of a turn's task, Retained/Client `InProcessRuntimeClient`,
--   Retained/Messages the messages and interrupts. A task's events go to the event journal.
--   Shell: src/remote_shell.rs. Shell/Commands quotes values and builds commands, Shell/Replies parses
--   what the remote shell prints, Shell/Words is how a POSIX shell splits a command into words.
--   Services: src/services.rs. Services/Process is the state, events and logs of a managed process,
--   Services/Supervise the loop that runs and restarts it.
--   Prelude: lists over native numbers, maps, results, saturating arithmetic and stable sorting.
--   Examples: concrete states that the theorems apply to.
--
-- Correspondence
--   Each operation under a lock is a function of the state that returns the new state. A HashMap or
--   HashSet is an association list or a list in the order of insertion; a VecDeque is a list with its
--   front first. A loop `while order.len() > maximum` that pops the front is a recursion over the
--   order, so no fuel is needed. Only a client that drains pages runs on fuel, with one round more
--   than there are events.
--   Machine integers keep their bounds where the source saturates. Strings are lists of UTF-8 bytes.
--   One-shot and watch channels are numbers; a value that is sent is returned with its channel.
--   Clocks, the existence of a receiver, serde, and the application's router are parameters.
--   The channel of a turn's events is bounded: a send that waits for room is either awaited to its end or
--   dropped by the executor, and its receiver may be dropped before any event. The executor that a
--   message is sent to is a function of its own state, called under the lock of the entry.
--   A command with a NUL in it has no reading as words, since shells drop a NUL or refuse the command.
--
-- Not modelled
--   The prose of errors and activities, JSON encodings, network, process and file I/O, the provider
--   adapters and diagnostic scrubbing.
pub mod Prelude
pub mod Journal
pub mod Interactions
pub mod Relay
pub mod Host
pub mod Stream
pub mod Retained
pub mod Shell
pub mod Services
mod Examples
