-- ===== src/Tests/Flushes.antt =====
-- Inputs for the final flush of panelapi/sync.go: two inbounds with traffic, and a panel that takes
-- the push of one node.
use mini_sb_agent.Base.{List, [], ◌∷◌, nat_eq, list_eq, pair_eq}
use mini_sb_agent.Topology.{NodeSpec}
use mini_sb_agent.Tests.Panels.{first, second_node}

abbrev nodes : List NodeSpec
nodes = first ∷ second_node ∷ []
