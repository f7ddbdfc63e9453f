-- ===== src/Agent.antt =====
-- packages/core/src/agent-runtime.ts and what its run is made of: the state of a run and its steps
-- (World), the stream of one turn (Turn), the loop with the recovery from an overflow (Run), and what
-- is known of them: of a turn (Quiet), of a step and
-- of the loop (Given, Loop), of the end of a run (Ends).
pub mod World
pub mod Turn
pub mod Run
pub mod Quiet
pub mod Given
pub mod Loop
pub mod Ends
