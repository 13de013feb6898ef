-- ===== src/FrontEnd/VisualizationNode.antt =====
-- ReMoLON_FrontEnd/include/VisualizationNode.h and ReMoLON_FrontEnd/src/VisualizationNode.cpp.
-- The mutex of a node makes each method one step. An `unsigned int` wraps at 2 ^ 32.
pub mod Slots
use re_mo_lon.Common.{
  ℕ, ◌+◌, ◌-◌, ◌%◌, ◌^◌, List, [], ◌∷◌, Option, none, some, Bool, true, false, ltb, if◌then◌else◌,
  not,
}
use re_mo_lon.Common.Eq.{Text, nat_eq}
use re_mo_lon.Common.Assoc.{find, assign}
use re_mo_lon.FrontEnd.Packets.{ConnectionRef, ServerPacket}

pub record VisualizationNode : Type 0 where
  pub con : Option ConnectionRef
  pub address : Text
  pub public_address : Text
  pub total_slots : ℕ
  pub used_slots : ℕ
  pub slot_tracker : List (ℕ × Bool)

-- The constructor sets `_con` alone: the two counters are what the memory held.
abbrev pub new_node : ℕ → ℕ → VisualizationNode
new_node total used = record {
  con = none;
  address = [];
  public_address = [];
  total_slots = total;
  used_slots = used;
  slot_tracker = [];
}

unfoldable pub set_connection : Option ConnectionRef → VisualizationNode → VisualizationNode
set_connection none n = record n { con = none }
set_connection (some c) n = record n { con = some c; address = c.client_address }

abbrev pub set_public_address : Text → VisualizationNode → VisualizationNode
set_public_address a n = record n { public_address = a }

abbrev pub get_available_stream_slots_count : VisualizationNode → ℕ
get_available_stream_slots_count n = (n.total_slots + 2 ^ 32 - n.used_slots) % 2 ^ 32

abbrev pub set_total_slots : ℕ → VisualizationNode → VisualizationNode
set_total_slots ts n = record n { total_slots = ts }

abbrev pub set_used_slots : ℕ → VisualizationNode → VisualizationNode
set_used_slots us n = record n { used_slots = us }

-- The first slot that is not in use, and the tracker with that slot in use.
unfoldable pub first_free : List (ℕ × Bool) → Option (ℕ × List (ℕ × Bool))
first_free [] = none
first_free ((port, used) ∷ slots) =
    let later = first_free slots in
    if not used
    then some (port, (port, true) ∷ slots)
    else elim later [ none ↦ none | some (p, rest) ↦ some (p, (port, used) ∷ rest) ]

-- The answer, and what is left in `destPort_`.
unfoldable pub try_reserve_slot : ℕ → VisualizationNode → (Bool × ℕ) × VisualizationNode
try_reserve_slot dest_port n =
    if ltb 0 (get_available_stream_slots_count n)
    then elim (first_free n.slot_tracker) [
      | none ↦ ((false, dest_port), n)
      | some (port, slots) ↦ (
        (true, port),
        record n { slot_tracker = slots; used_slots = (n.used_slots + 1) % 2 ^ 32 },
      )
    ]
    else ((false, dest_port), n)

-- `_usedSlots` is read here and not written.
unfoldable pub release_slot : ℕ → VisualizationNode → VisualizationNode
release_slot port n =
    if ltb 0 n.used_slots
    then elim (find port n.slot_tracker) [
      | none ↦ n
      | some _ ↦ record n { slot_tracker = assign port false n.slot_tracker }
    ]
    else n

unfoldable pub add_available_port : ℕ → Bool → VisualizationNode → VisualizationNode
add_available_port port used n = record n { slot_tracker = assign port used n.slot_tracker }

-- What goes to the network: the connection and the packet.
unfoldable pub send_packet : ServerPacket → VisualizationNode → List (ConnectionRef × ServerPacket)
send_packet p n = elim n.con [ none ↦ [] | some c ↦ (c, p) ∷ [] ]
