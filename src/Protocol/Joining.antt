-- ===== src/Protocol/Joining.antt =====
-- ReMoLON/src/main.cpp: what a node does first, from its connection to the front end to the entry
-- that the front end then has of it.
use re_mo_lon.Common.{
  ℕ, ◌+◌, ◌^◌, ◌<◌, ◌≡◌, refl, ◌∙◌, List, [], ◌∷◌, ◌++◌, Option, none, some, arith, length,
}
use re_mo_lon.Common.Eq.{Text, nat_eq}
use re_mo_lon.Common.Assoc.{Distinct}
use re_mo_lon.Common.Outcome.{ok, throws, fault}
use re_mo_lon.Util.ByteBuffer.{ByteBuffer}
use re_mo_lon.Util.ByteBuffer.Content.{IsValid, content}
use re_mo_lon.Util.ByteBuffer.Reads.{read_at}
use re_mo_lon.Util.Packet.Framing.{frame}
use re_mo_lon.Util.PacketHandler.{handle_packet, dispatch, read_with}
use re_mo_lon.Util.PacketHandler.Dispatch.{handle_packet_whole}
use re_mo_lon.Util.Connection.{Sendable}
use re_mo_lon.Util.Client.{Client, queue_packet, send_loop}
use re_mo_lon.Util.Client.Opening.{Unconnected, new_client, connect, first_packet_lem}
use re_mo_lon.FrontEnd.Packets.{ConnectionRef}
use re_mo_lon.FrontEnd.Packets as FE
use re_mo_lon.FrontEnd.VisualizationNode.{VisualizationNode}
use re_mo_lon.FrontEnd.VisualizationNode.Slots.{IsCounted}
use re_mo_lon.FrontEnd.NodeManager.{NodeManager, get_node}
use re_mo_lon.FrontEnd.NodeInfo.{factories}
use re_mo_lon.Node.Packets.{node_info, answer_opcode, write_answer}
use re_mo_lon.Protocol.Requests.{IsShort}
use re_mo_lon.Protocol.Report.{Ports, report_bytes, AllInt, write_node_info-Sends}
use re_mo_lon.Protocol.Registration.{first_report-IsCounted}

-- `NodeInfo`, for the public address and the port list of the session manager.
abbrev pub info_packet : Text → Ports → Sendable
info_packet public_address ports = record {
  opcode = answer_opcode node_info;
  write_impl = write_answer public_address ports node_info;
}

-- What `main` does with a client for the front end, until the sending thread waits again.
unfoldable pub report_to :
    {P : Type 0} → (Text → ℕ → Option ℕ) → Text → Ports → Unconnected → Option (Client P)
report_to {P = P} open_socket public_address ports u = elim (connect {P = P} open_socket u).1 [
  | none ↦ none
  | some c ↦ elim (send_loop 2 (queue_packet (info_packet public_address ports) c)) [
    | ok _ c' ↦ some c'
    | throws _ _ ↦ none
    | fault ↦ none
  ]
]

-- The front end's handler reads the first report of a node whole.
report_handled :
    (junk_total junk_used : ℕ) (con : ConnectionRef) (m : NodeManager) (public_address : Text)
    (ports : Ports) (b : ByteBuffer) (rest : List ℕ)
    → get_node con.client_address m ≡ none
    → Distinct ports
    → IsShort public_address
    → length ports < 2 ^ 31
    → AllInt ports
    → length (report_bytes public_address ports) < 2 ^ 16
    → IsValid b
    → content b ≡ frame 0x00 (report_bytes public_address ports) ++ rest
    → (n : VisualizationNode) × (m' : NodeManager) × (b' : ByteBuffer) × (handle_packet
          (factories junk_total junk_used con)
          (m, b)
        ≡ ok (some FE.node_info) (m', b'))
      × (get_node con.client_address m' ≡ some n)
      × (n.slot_tracker ≡ ports)
      × IsCounted n
      × IsValid b'
      × (content b' ≡ rest)
unfolding dispatch factories
report_handled junk_total junk_used con m public_address ports b rest new distinct short few ints
      fits v e =
    let bs = report_bytes public_address ports in
    let fs = factories junk_total junk_used con in
    let (h, v1, e1) = handle_packet_whole fs m b v 0x00 bs rest (omega arith) fits e in
    let (n, m', b', p, there, table, counted, v', e') =
      first_report-IsCounted junk_total junk_used con m public_address ports
        (read_at b (b.read + 1 + 2)) rest new distinct short few ints v1 e1 in
    (n, m', b', h ∙ rw (dispatch, p, read_with) refl, there, table, counted, v', e')

-- For a front end that takes the connection, and a short public address and fewer than 2 ^ 31
-- different ports that fit in an int and in one packet: all that a node that starts gives to the
-- socket is one block, the frame of its report. And on a valid buffer whose content starts with
-- that frame, from an address that the front end does not know, its packet handler leaves an entry
-- there whose table is the ports of the node and whose counters are those of the table, and what
-- follows the frame is left.
pub node_joins :
    {P : Type 0} (open_socket : Text → ℕ → Option ℕ) (junk_recv junk_send : ℕ → ℕ) (address : Text)
    (port fd : ℕ) (public_address : Text) (ports : Ports) (junk_total junk_used : ℕ)
    (con : ConnectionRef) (m : NodeManager) (b : ByteBuffer) (rest : List ℕ)
    → open_socket address port ≡ some fd
    → Distinct ports
    → IsShort public_address
    → length ports < 2 ^ 31
    → AllInt ports
    → length (report_bytes public_address ports) + 3 < 65535
    → get_node con.client_address m ≡ none
    → IsValid b
    → content b ≡ frame 0x00 (report_bytes public_address ports) ++ rest
    → ((u : Unconnected) × (c : Client P) × (new_client junk_recv junk_send address port ≡ some u)
        × (report_to open_socket public_address ports u ≡ some c)
        × (c.sent ≡ frame 0x00 (report_bytes public_address ports) ∷ []))
      × ((n : VisualizationNode) × (m' : NodeManager) × (b' : ByteBuffer) × (handle_packet
              (factories junk_total junk_used con)
              (m, b)
            ≡ ok (some FE.node_info) (m', b'))
          × (get_node con.client_address m' ≡ some n)
          × (n.slot_tracker ≡ ports)
          × IsCounted n
          × IsValid b'
          × (content b' ≡ rest))
unfolding report_to answer_opcode write_answer
node_joins {P = P} open_socket junk_recv junk_send address port fd public_address ports junk_total
      junk_used con m b rest opens distinct short few ints fits new v e =
    let (u, c, c', made, connected, sends, blocks) =
      first_packet_lem {P = P} open_socket junk_recv junk_send address port fd
        (info_packet public_address ports) (report_bytes public_address ports) opens
        (write_node_info-Sends public_address ports (omega (arith, short))) fits in
    (
      (u, c', made, rw (report_to, connected, sends) refl, blocks),
      report_handled junk_total junk_used con m public_address ports b rest new distinct short few
          ints (omega (arith, fits)) v e,
    )
