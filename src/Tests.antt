-- ===== src/Tests.antt =====
-- Runs of the model on concrete data, and the theorems at inputs that meet their hypotheses.
mod RaftData
mod RaftRuns
mod ClerkRuns
mod KvClerkRuns
mod ClusterRuns
mod NetworkRuns
mod CtrlerRuns
mod KvData
mod KvRuns
mod KvMoves
