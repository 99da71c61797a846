-- ===== src/Lib.antt =====
-- SmartNPC: the agent server of AgentTown (agenttown-mcp), which drives the characters of a game. It
-- talks to the game (UE) over a websocket, keeps the state of each agent, and asks a language model
-- for plans (the strategic layer) and for actions (the tactical layer).
--
-- How the parts interact. UE's perceptions, completions and world events come in by the websocket
-- server and reach the agent's worker, which changes the agent state and, at a safe point, asks for
-- a decomposition of the current slot of the day's plan. Actions wait in a queue, go out one at a
-- time, and are acknowledged and later completed by UE. The schedule is written through to MySQL.
--
-- Which file models what (paths from the repository's root):
--   Protocol      agenttown-mcp/contract/protocol/messages.go, the payloads that are kept
--   Float64       Go's float64, as an interface without laws
--   AgentState    agenttown-mcp/pkg/agentstate: the struct `AgentState`, its fields in groups
--     WorldEvents   world_event_queue.go and `EchoWorldEvent`: queue, set and FIFO of handled ids
--     Situations    active_situations.go
--     Flight        the in-flight action: RecordActionStarted, RecordActionInterrupted,
--                   RecordActionEndedBySchedule, RecordActionCompletion, RecordQueueStatus,
--                   ClearInFlightAction, ClearInFlightKeepQueue and its stash
--     ActionQueue   PopAction, PopActionIfIdle, PrependAction, AppendQueueAction and the gates
--     Refill        BeginTacticalRefill, CommitTacticalRefill, RefillQueue, ReplaceQueue, CommitReplan
--     Throttle      TryBeginStrategicReplan, RecordPlanRevision
--     Lifecycle     ClearForSlotSwitch, ClearForReplan, ClearInFlightKeepQueue, Stop
--     Perception    SetPerception and the readers of the latest perception
--     Conversation  the dialogue history and the time_to_stop marker
--     Rollover      DetectDayRollover, SetSocialNeed
--     Reactive      DedupeReactive
--     Schedule      the persistent fields, with pkg/storage (ScheduleState, NoopStore, MySQLStore)
--       Race        snapshots and writes of several goroutines as a step relation
--     Durability    every method that writes the persistent fields, over a history of calls
--   WsServer      agenttown-mcp/wsserver/server.go: sending, the replay buffer, resync
--     Acks          Call and deliverACK
--   Slots         agenttown-mcp/pkg/prompt/slotutil.go: times of day and slots
--   Compaction    agenttown-mcp/cmd/agenttown-mcp/compaction.go: the trigger, the split into rounds and
--                 the write-back; pkg/llmtokens/estimate.go
--   WorldKb       agenttown-mcp/pkg/worldkb: the knowledge base that is made of a generated and an
--                 authored document
--     Json          decoded JSON values, deepMergeMaps
--     Entities      types.go, and the readers of one value in merger.go
--     Projection    projectZone, projectObject, projectAgent
--     Authored      matchAuthoredObject, the conversion of old authored entries
--     Gather        the three loops of MergeMaps over the generated entities
--     Relations     flattenRelationships
--     Merger        MergeMaps
--     Validator     validator.go
--     Query         query.go, and buildIndex of loader.go
--   Strategic     agenttown-mcp/cmd/agenttown-mcp/strategic.go: normalizeDailyPlan, clampNightEnd,
--                 matchPlanSlot
--     Jitter        jitterPlanNodes
--     Revision      formatDailyPlan, parseFormattedPlan; strategic_replan.go: mergeRemainder
--   Dispatch      agenttown-mcp/cmd/agenttown-mcp/world_event_dispatch.go: handleWorldEvent, handleForceEvent,
--                 handleCombatDetach, reclaimFromCombatYield
--     Agent         the part of agentContext (main.go) that they touch, and their effects
--     Events        agenttown-mcp/pkg/prompt/world_event.go: kinds of events
--     Yield         beginCombatYield, endCombatYield
--   Dialogue      agenttown-mcp/cmd/agenttown-mcp/relationship.go: the session of a conversation
--   Reaction      agenttown-mcp/cmd/agenttown-mcp/world_event_dispatch.go and event_router.go: the guard of
--                 a reaction, its deadline, and the router's interruptions
--   Tests         the theorems at concrete inputs
--
-- How the code is rendered. A method holds the agent's mutex for its body, so it is one function
-- on the fields that it touches; a history of the state is a list of such calls. The fields of the
-- struct stand in records by the methods that touch them. Times are nanoseconds, sequence numbers
-- and counters are numbers that do not reach 2 ^ 63. A JSON payload is given by what decoding makes
-- of it; a frame is kept as the envelope that it encodes. A connection is absent, open or broken,
-- and a broken one refuses every write. MySQL is a table by primary key, and a flag that says
-- whether a statement succeeds. A Go map is its list of entries in an order of iteration; where an
-- order is left open by Go it is a parameter, and so are the draws of the jitter. What a handler of
-- world events sends or starts is a list of effects. All loops are structural recursion on the data,
-- so no fuel is used.
--
-- What is not modelled: the HTTP and websocket libraries, timers, logging, JSON and YAML decoding, and
-- the language model clients; the files of the knowledge base; the worker loop, the rest of the
-- event router, what follows a speech that was heard, the tactical layer and the prompts; the
-- interleaving of concurrent senders on the connection.
pub mod Prelude
pub mod Float64
pub mod Protocol
pub mod AgentState
pub mod WsServer
pub mod Slots
pub mod Compaction
pub mod Reaction
pub mod Dialogue
pub mod Dispatch
pub mod WorldKb
pub mod Strategic
pub mod Tests
