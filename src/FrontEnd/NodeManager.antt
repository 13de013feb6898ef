-- ===== src/FrontEnd/NodeManager.antt =====
-- ReMoLON_FrontEnd/include/VisualizationNodeManager.h and
-- ReMoLON_FrontEnd/src/VisualizationNodeManager.cpp. A `VisualizationNode *` is the key of its
-- entry in `_nodeList`.
pub mod Balance
use re_mo_lon.Common.{ℕ, List, [], ◌∷◌, Option, none, some, Bool, true, false, ltb, if◌then◌else◌}
use re_mo_lon.Common.Eq.{Text, text_eq}
use re_mo_lon.Common.Assoc
use re_mo_lon.FrontEnd.Packets.{ConnectionRef}
use re_mo_lon.FrontEnd.VisualizationNode.{
  VisualizationNode, new_node, set_connection, get_available_stream_slots_count,
}

pub record NodeManager : Type 0 where
  pub enable_load_balance : Bool
  pub node_list : List (Text × VisualizationNode)

abbrev pub set_load_balance_enabled : Bool → NodeManager → NodeManager
set_load_balance_enabled val m = record m { enable_load_balance = val }

unfoldable pub get_node : Text → NodeManager → Option VisualizationNode
get_node address m = Assoc.find address m.node_list

-- `*node = n`, for the node at `address`.
abbrev pub put_node : Text → VisualizationNode → NodeManager → NodeManager
put_node address n m = record m { node_list = Assoc.assign address n m.node_list }

-- The two numbers are the counters that a new node finds in its memory.
unfoldable pub register_or_get_node : ℕ → ℕ → ConnectionRef → NodeManager → Text × NodeManager
register_or_get_node total used con m =
    let address = con.client_address in
    elim (get_node address m) [
      | some node ↦ (address, put_node address (set_connection (some con) node) m)
      | none ↦ (address, put_node address (set_connection (some con) (new_node total used)) m)
    ]

-- The loop of `findBest`, from the best candidate so far and its available slots.
unfoldable pub best_from :
    Option (Text × VisualizationNode)
    → ℕ
    → List (Text × VisualizationNode)
    → Option (Text × VisualizationNode)
best_from best most [] = best
best_from best most ((address, node) ∷ nodes) =
    let available = get_available_stream_slots_count node in
    let better = best_from (some (address, node)) available nodes in
    let same = best_from best most nodes in if ltb most available then better else same

unfoldable pub find_best : NodeManager → Option (Text × VisualizationNode)
find_best m = best_from none 0 m.node_list

unfoldable pub first_available : List (Text × VisualizationNode) → Option (Text × VisualizationNode)
first_available [] = none
first_available ((address, node) ∷ nodes) =
    if ltb 0 (get_available_stream_slots_count node)
    then some (address, node)
    else first_available nodes

unfoldable pub find : NodeManager → Option (Text × VisualizationNode)
find m = first_available m.node_list

unfoldable pub find_best_node : NodeManager → Option (Text × VisualizationNode)
find_best_node m = if m.enable_load_balance then find_best m else find m
