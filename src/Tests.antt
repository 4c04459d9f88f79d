-- ===== src/Tests.antt =====
-- Concrete inputs: the assumptions on foreign code met by an implementation, runs of the model on
-- small states, and the theorems applied to them.
mod AssocMap
mod StmRuns
mod UndoLogRuns
mod BufferRuns
mod GrtRuns
mod NewLockRuns
mod AllocRuns
mod RandomRuns
mod WaitingRuns
mod ClusterRuns
mod ProtocolRuns
mod OnRuns
mod BaseRuns
mod HashmapRuns
