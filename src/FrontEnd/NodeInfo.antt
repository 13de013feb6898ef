-- ===== src/FrontEnd/NodeInfo.antt =====
-- ReMoLON_FrontEnd/src/clientpackets/NodeInfo.cpp. Its `readImpl` changes the node while it reads:
-- what it did before an exception stays done.
use re_mo_lon.Common.{ℕ, zero, suc, ◌+◌, ◌^◌, Option, none, some, Bool, ltb, if◌then◌else◌, ◌&&◌}
use re_mo_lon.Common.Eq.{Text}
use re_mo_lon.Common.Outcome.{ok, fault, Run, ◌>>=◌, ◌>>◌, pure}
use re_mo_lon.Util.ByteBuffer.{ByteBuffer}
use re_mo_lon.Util.Packet.{read_string, read_int}
use re_mo_lon.Util.PacketHandler.{on_packet, Factories, no_factories, updated}
use re_mo_lon.FrontEnd.Packets.{
  ConnectionRef, ClientPacket, node_info, read_start_result, read_close_result,
}
use re_mo_lon.FrontEnd.VisualizationNode.{
  VisualizationNode, set_public_address, set_total_slots, set_used_slots, add_available_port,
}
use re_mo_lon.FrontEnd.NodeManager.{NodeManager, register_or_get_node, get_node, put_node}

abbrev pub Reading : Type 0 → Type 0
Reading A = Run (NodeManager × Option ByteBuffer) A

abbrev pub register : ℕ → ℕ → ConnectionRef → Reading Text
register total used con (m, b) =
    let (address, m') = register_or_get_node total used con m in ok address (m', b)

-- A method of the node behind the pointer, which is the entry at `address`.
unfoldable pub on_node : Text → (VisualizationNode → VisualizationNode) → Reading (Unit {0})
on_node address f (m, b) = elim (get_node address m) [
  | none ↦ fault
  | some node ↦ ok tt (put_node address (f node) m, b)
]

abbrev pub is_positive : ℕ → Bool
is_positive i = ltb 0 i && ltb i (2 ^ 31)

-- The loop over the slots: the rounds left, and `used`.
unfoldable pub read_slots : Text → ℕ → ℕ → Reading ℕ
read_slots address zero used = pure used
read_slots address (suc rounds) used = do
  slot_port ← on_packet read_int
  flag ← on_packet read_int
  on_node address (add_available_port slot_port (is_positive flag))
  read_slots address rounds (if is_positive flag then used + 1 else used)

-- `for ( int i = 0; i < totalSlots; i++ )` makes no round for a negative `totalSlots`.
abbrev pub rounds : ℕ → ℕ
rounds total_slots = if ltb total_slots (2 ^ 31) then total_slots else 0

-- `readImpl` from the line that reads the public address.
unfoldable pub read_report : Text → Reading ClientPacket
read_report address = do
  public_addr ← on_packet read_string
  on_node address (set_public_address public_addr)
  total_slots ← on_packet read_int
  on_node address (set_total_slots total_slots)
  used ← read_slots address (rounds total_slots) 0
  on_node address (set_used_slots used)
  pure node_info

unfoldable pub read_node_info : ℕ → ℕ → ConnectionRef → Reading ClientPacket
read_node_info junk_total junk_used con = do
  address ← register junk_total junk_used con
  read_report address

-- The packets that the front end's server registers.
unfoldable pub factories : ℕ → ℕ → ConnectionRef → Factories NodeManager ClientPacket
factories junk_total junk_used con =
    updated
      (updated (updated no_factories 0x00 (read_node_info junk_total junk_used con)) 0x01
        (on_packet read_start_result))
      0x02 (on_packet read_close_result)
