-- ===== src/Engine/Foreach/Laws.antt =====
-- The end of a foreach node.
use pocket_flow_go.Engine.{Engine}
use pocket_flow_go.Value.{Value}
