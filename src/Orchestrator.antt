-- ===== src/Orchestrator.antt =====
-- internal/orchestrator/orchestrator.go: how a plan is dispatched, wave by wave, and what the parent
-- makes of each child. What `runStep` gathers from the funnel and the runner before `close`, the
-- share that the purse cuts for a wave, the state of the context and the file of the checkpoint are
-- outside; `Surroundings` has them. A reason is a constructor in place of its sentence, and a copy on
-- paper (`snapshot`) is the step itself. The text of a failure, events, clocks and
-- identifiers are left out.
pub mod Closing
pub mod Loop
pub mod Ids
pub mod Waves
pub mod Order
pub mod Complete
pub mod Approval
pub mod Ask
