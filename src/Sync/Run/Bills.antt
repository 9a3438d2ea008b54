-- ===== src/Sync/Run/Bills.antt =====
-- The balance of a run of the agent: what its connections move is posted or pending.
use mini_sb_agent.Base.{nat_eq, list_eq, pair_eq}
use mini_sb_agent.Topology.{Topology}
