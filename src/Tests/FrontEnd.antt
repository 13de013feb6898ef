-- ===== src/Tests/FrontEnd.antt =====
-- The front end's nodes and sessions.
use re_mo_lon.Common.{
  ℕ, zero, suc, ◌+◌, ◌<◌, ◌≤◌, ◌≡◌, refl, List, [], ◌∷◌, Bool, true, false, Option, none, some,
  arith, if◌then◌else◌, ◌⊎◌, inl, inr, ◌&&◌,
}
use re_mo_lon.Common.Eq.{Text, text_eq, nat_eq, ◌==◌}
use re_mo_lon.Common.Assoc
use re_mo_lon.FrontEnd.VisualizationNode.{
  VisualizationNode, try_reserve_slot, release_slot, get_available_stream_slots_count,
}
use re_mo_lon.FrontEnd.VisualizationNode.Slots.{
  Reserved, try_reserve_slot_lem, release_slot-available,
}
use re_mo_lon.FrontEnd.NodeManager.{NodeManager, find_best, find_best_node, put_node}
use re_mo_lon.FrontEnd.NodeManager.Balance.{Among, AtMost, BestOf, find_best-BestOf}
use re_mo_lon.FrontEnd.NodeManager.{get_node}
use re_mo_lon.FrontEnd.SessionTracker.{
  SessionInfo, Tracker, search_slot, no_node, reserved, still_searching, try_create_session,
  enter_session, fail_duplicate_name, fail_no_available_nodes,
}
use re_mo_lon.FrontEnd.SessionTracker.Reservation.{search_slot_ends, search_slot_stuck, AllCounted}
use re_mo_lon.FrontEnd.SessionTracker.Lookup.{session_at}
use re_mo_lon.FrontEnd.SessionTracker.Exclusive.{Inv}
use re_mo_lon.FrontEnd.SessionTracker.Calls.{try_create_session-cases}
use re_mo_lon.FrontEnd.SessionTracker.Threads.{
  Shared, Event, reserves, enters, finishes, interleave,
}
use re_mo_lon.FrontEnd.SessionTracker.Threads.Reserving.{SharedInv}
use re_mo_lon.FrontEnd.SessionTracker.Threads.Safe.{interleave-SharedInv}
use re_mo_lon.Tests.Data.{ana, s1, node_address, user, node, node-IsCounted, nodes}

try_reserve_slot_lem_example :
    ((get_available_stream_slots_count node ≡ 0) × (try_reserve_slot 0 node ≡ ((false, 0), node)))
    ⊎ ((port : ℕ) × (n' : VisualizationNode) × (try_reserve_slot 0 node ≡ ((true, port), n'))
        × Reserved node port n')
try_reserve_slot_lem_example = try_reserve_slot_lem 0 node node-IsCounted

release_slot-available_example :
    get_available_stream_slots_count (release_slot 8001 node)
    ≡ get_available_stream_slots_count node
release_slot-available_example = release_slot-available 8001 node

find_best-BestOf_example : BestOf nodes.node_list (find_best nodes)
find_best-BestOf_example = find_best-BestOf nodes

nodes-AllCounted : AllCounted nodes.node_list
nodes-AllCounted = (node-IsCounted, tt)

search_slot_ends_example :
    ((AtMost 0 nodes.node_list) × (search_slot 1 0 0 nodes ≡ no_node))
    ⊎ ((a : Text) × (n n' : VisualizationNode) × (p : ℕ) × (search_slot 1 0 0 nodes
          ≡ reserved a n' p (put_node a n' nodes))
        × Among (a, n) nodes.node_list
        × (find_best_node nodes ≡ some (a, n))
        × Reserved n p n')
search_slot_ends_example = search_slot_ends 0 0 0 nodes nodes-AllCounted

-- A node that has reported two slots, one in use, and has two ports in use.
abbrev overcounted : VisualizationNode
overcounted = record node { slot_tracker = (8001, true) ∷ (8002, true) ∷ [] }

abbrev stuck_nodes : NodeManager
stuck_nodes = record { enable_load_balance = false; node_list = (node_address, overcounted) ∷ [] }

search_slot_stuck_example : search_slot 1000 0 0 stuck_nodes ≡ still_searching
unfolding find_best_node re_mo_lon.FrontEnd.NodeManager.find
    re_mo_lon.FrontEnd.NodeManager.first_available Assoc.find
    re_mo_lon.FrontEnd.VisualizationNode.first_free re_mo_lon.Common.Eq.text_beq
search_slot_stuck_example =
    search_slot_stuck 1000 0 stuck_nodes node_address overcounted refl refl refl

abbrev pub tracker : Tracker
tracker = record { open_sessions = []; nodes = nodes; sent = [] }

try_create_session-cases_example :
    ((i : SessionInfo) × (session_at ana s1 [] ≡ some i)
      × (try_create_session 1 user s1 tracker ≡ some (fail_duplicate_name, user, tracker)))
    ⊎ ((session_at ana s1 [] ≡ none)
        × AtMost 0 nodes.node_list
        × (try_create_session 1 user s1 tracker ≡ some (fail_no_available_nodes, user, tracker)))
    ⊎ ((a : Text) × (n n' : VisualizationNode) × (p : ℕ) × (session_at ana s1 [] ≡ none)
        × (find_best_node nodes ≡ some (a, n))
        × (try_create_session 1 user s1 tracker
            ≡ some (enter_session user s1 n' p (put_node a n' nodes) tracker))
        × Among (a, n) nodes.node_list
        × Reserved n p n')
try_create_session-cases_example = try_create_session-cases 0 user s1 tracker nodes-AllCounted

pub tracker-Inv : Inv tracker
unfolding session_at Assoc.find
tracker-Inv = record {
  nodes_valid = record { counted = nodes-AllCounted; keyed = (tt, tt); addressed = (refl, tt) };
  held = λ u n i e. cc;
  exclusive = λ u n u' n' i i' e e' a p. cc;
}

-- Two threads create sessions on the one node at the same time.
abbrev shared : Shared
shared = record { tracker = tracker; flights = λ i. none }

shared-SharedInv : SharedInv shared
shared-SharedInv = record {
  sessions = tracker-Inv;
  flying = λ i f e. cc;
  apart = λ i f u n info e d ea ep. cc;
  alone = λ i j f g e d ea ep. cc;
}

abbrev race : List Event
race =
    reserves 0 user s1 node_address
    ∷ reserves 1 user ana node_address
    ∷ enters 1
    ∷ finishes user ana
    ∷ enters 0
    ∷ []

interleave-SharedInv_example : SharedInv (interleave race shared)
interleave-SharedInv_example = interleave-SharedInv race shared shared-SharedInv
