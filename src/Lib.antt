-- ===== src/Lib.antt =====
-- Verification of whiteagent: the parts of the program that decide who may talk to which agent, when an
-- agent is woken up, how messages get to it, what it does with them, and which secrets and containers it
-- works with.
--
-- Parts and files:
-- Cron (pkg/cron/cron.go). `Parse` turns the text of five fields into sorted lists of values, and
--   `NextAfter` looks for the next time. Cron.antt has the parser, Cron/Days.antt the calendar and
--   `dayMatches`, Cron/Next.antt the search. An int is its int64 bit pattern, so additions wrap.
-- Store (pkg/plugins/store/sqlite). The tables as lists of rows, and one definition for each statement
--   that the other parts make: GetTenant is `get_tenant`, UseInviteCode is `use_invite`, and so on.
--   Store/Rows.antt has the rows.
-- Onboarding (internal/domain/service/onboarding/service.go). `TryJoin` redeems an invite code that is
--   found in a message, or lets the sender in by the policy of the tenant. Each method is a definition
--   of the same name over the store; Onboarding/Messages.antt has what they read from a message.
-- Identity (internal/domain/service/identity/resolver.go, cache.go). `Resolve` maps a sender on a
--   channel to tenant, user, agent and chat, with a cache in front of the store; new chats are created
--   by onboarding's `CreateChat`. Identity/Users.antt has `ResolveUsers` of user_resolver.go.
-- Scheduler (internal/domain/service/scheduler/scheduler.go). A tick fires the entries that are due:
--   the entry's state is changed, a run is recorded, and a message is published. It parses
--   expressions and looks for the next time by Cron. Scheduler/Tables.antt has the cron tables.
-- Conversation (internal/domain/service/conversation/service.go). The service's three maps say which
--   conversation a chat is in; `ResolveConversation`, `SwitchConversation` and `ResetConversation` change
--   them.
-- Bus (pkg/plugins/transport/memory/plugin.go). Topics, with the handlers that are subscribed to them.
--   Bus.antt has `Init`, `SetMiddleware`, `Subscribe` and what dispatchLoop does with a message.
--   Bus/Channels.antt has the channel of a topic as a step relation, in which the calls of `Publish` and
--   `Stop` and the rounds of dispatchLoop interleave.
-- Middleware (pkg/plugins/middleware). Middleware/Command.antt has the commands `/new`, which resets the
--   chat's conversation by Conversation, and `/logs`; Middleware/Whisper.antt puts the text of voice
--   messages into a message.
-- Secrets (internal/domain/service/secret/impl.go, pkg/plugins/store/sqlite/secret.go). Each method of
--   the service is a definition of the same name; Secrets/Rows.antt has the two tables. `List`, `Redact`
--   and `EnvVars` share the loop that lets a user's secrets shadow the tenant's.
-- Pool (pkg/plugins/sandbox/docker/pool.go). The containers kept for users: `ensure`, `exec`, `release`,
--   `sweepOnce` and the rest. Pool/Binds.antt has mounts and their comparison.
-- Compaction (internal/domain/service/compaction/service.go). `Compact` sums up the older messages of a
--   conversation: which ones it takes, and the sections of the text that it saves.
-- Entity (internal/domain/entity/message.go, attachment.go). The message, as the loop and the prompt read
--   it, and `NewReply`.
-- Llm (internal/domain/service/llm/router.go, completion.go). `NewRouter` parses the chain of routes, and
--   `Complete` goes along it, past the routes that are cooled down, until one answers.
-- Prompt (internal/domain/service/prompt). Prompt.antt has render.go: the groups of a history, the window
--   that fits in a budget, and the sizes. Of prompt.go, Prompt/Blocks.antt has `buildContextBlock`, with
--   pkg/xml, pkg/token and the formats of pkg/util/format.go, Prompt/System.antt `renderSystem` and
--   `FilteredToolDefs`, and Prompt/Build.antt `Build`.
-- Loop (internal/domain/service/loop/loop.go). A turn answers a message in rounds: each builds a prompt,
--   calls the model and runs the tools that it asks for. Loop.antt has the rounds, Loop/Turn.antt `Handle`
--   and `runTurn` up to them, Loop/Port.antt what the loop is given. A round takes the rest of the turn as
--   an argument, and `MaxIterations` is the bound of their number. `Recorded` files add a record of the
--   calls to the world, for what is said of them.
-- Common has what they share: texts as lists of bytes, results, maps, tests on numbers.
--
-- Effects: a handler is a function from the state before to a reply and the state after. Every call of
-- the store, of the transport and of the file system may fail: a list of Booleans in the state says
-- which of the calls to come do; the router, the prompt builder, compaction and the loop are instead
-- over any world, with each call a function on it that tells whether it failed. A method that returns
-- early is a chain of steps that stops. Where the code dereferences nil, the handler ends in
-- `crashed`.
--
-- Bounds: the loop over the values of a step has fuel 256: a range has at most 60 values, and two
-- rounds in which an addition wraps around lead to a lower value. `NextAfter` goes through five years,
-- as its loop does. White space and upper case are those of ASCII.
--
-- Parameters: a time zone (`Zone`, the civil time of an instant and back), the text of identifiers,
-- directories and file names, the texts of errors, times, numbers and JSON, random bytes, the cipher
-- of secrets (`Aead`), Docker and the file system under the pool (`Client`), the transcription of a
-- voice message, the middleware and handlers of the bus, the template of the system prompt, the model
-- and the template of compaction, the endpoints and the clock of the router, and what the agent loop
-- calls: the store, the conversation service, the prompt builder, `Complete`, the tools, `Redact`,
-- `SanitizeResponse` and the sandbox of the turn.
--
-- Not modelled: channels, the sandbox proxy of a turn, `SanitizeResponse`, the discovery of skills, the
-- tools themselves, the HTTP clients, the command line and the gateway; of the store, searches, lists,
-- deletions and the SQL text itself; columns that nothing here reads; locks and the semaphore of `Handle`,
-- since each method is taken as one sequence of calls, but for the channels of the bus and for `exec` and
-- the sweep of the pool. What a tool of a turn does is a change of the world. Tools that run in parallel are taken in the order of their calls. Go visits a map in the order of
-- the list that stands for it.
mod Common
mod Entity
pub mod Cron
pub mod Store
pub mod Onboarding
pub mod Identity
pub mod Scheduler
pub mod Conversation
pub mod Bus
pub mod Pool
pub mod Secrets
pub mod Middleware
pub mod Compaction
pub mod Llm
pub mod Prompt
pub mod Loop
