-- ===== src/Tests/Protocol.antt =====
-- Packets from end to end.
use re_mo_lon.Common.{
  ℕ, ◌+◌, ◌<◌, ◌≡◌, refl, List, [], ◌∷◌, ◌++◌, Bool, true, false, Option, none, some, arith, length,
}
use re_mo_lon.Common.Eq.{Text, text_eq, nat_eq}
use re_mo_lon.Common.Outcome.{ok}
use re_mo_lon.Util.ByteBuffer.{ByteBuffer}
use re_mo_lon.Util.ByteBuffer.Content.{IsValid, content}
use re_mo_lon.Util.Packet.{write_packet}
use re_mo_lon.Util.Packet.Framing.{frame}
use re_mo_lon.Util.PacketHandler.{handle_packet}
use re_mo_lon.FrontEnd.Packets.{
  ServerPacket, SessionResult, get_opcode, write_impl, request_start_streaming_session, node_info,
}
use re_mo_lon.FrontEnd.VisualizationNode.Slots.{IsCounted}
use re_mo_lon.FrontEnd.VisualizationNode.{VisualizationNode}
use re_mo_lon.FrontEnd.NodeManager.{NodeManager, get_node, put_node}
use re_mo_lon.FrontEnd.NodeInfo.{factories, read_node_info}
use re_mo_lon.Node.Packets.{frontend_factories, answer_opcode, write_answer}
use re_mo_lon.Protocol.Requests.{request_bytes, received, request_delivered}
use re_mo_lon.Protocol.Answers.{result_bytes, as_answer, as_packet, answer_delivered}
use re_mo_lon.Protocol.Report.{Ports, report_bytes}
use re_mo_lon.Util.Client.{Client}
use re_mo_lon.Util.Client.Opening.{Unconnected, new_client}
use re_mo_lon.Protocol.Registration.{entry, reported, read_node_info_lem}
use re_mo_lon.Protocol.Joining.{report_to, node_joins}
use re_mo_lon.Tests.Data.{empty, empty-IsValid, holding, ana, s1, node_address, con, no_nodes}

abbrev request : ServerPacket
request =
    request_start_streaming_session
      (record { user_name = ana; user_address = node_address; session_name = s1; port = 8001 })

request_delivered_example :
    (b' : ByteBuffer) × (write_packet (get_opcode request) (write_impl request) (some empty)
      ≡ ok tt (some b'))
    × (content b' ≡ content empty ++ frame (get_opcode request) (request_bytes request))
    × ((c : ByteBuffer) (rest : List ℕ)
        → IsValid c
        → content c ≡ frame (get_opcode request) (request_bytes request) ++ rest
        → (c' : ByteBuffer) × (handle_packet frontend_factories (tt, c)
            ≡ ok (some (received request)) (tt, c'))
          × IsValid c'
          × (content c' ≡ rest))
request_delivered_example =
    request_delivered request empty (omega arith, omega arith, omega arith, omega arith)
      (omega arith) empty-IsValid (omega arith)

abbrev result : SessionResult
result = record { user_name = ana; session_name = s1; status = 2 }

answer_delivered_example :
    (b' : ByteBuffer) × (write_packet 1 (write_answer [] [] (as_answer true result)) (some empty)
      ≡ ok tt (some b'))
    × (content b' ≡ content empty ++ frame 1 (result_bytes result))
    × ((m : NodeManager) (c : ByteBuffer) (rest : List ℕ)
        → IsValid c
        → content c ≡ frame 1 (result_bytes result) ++ rest
        → (c' : ByteBuffer) × (handle_packet (factories 0 0 con) (m, c)
            ≡ ok (some (as_packet true result)) (m, c'))
          × IsValid c'
          × (content c' ≡ rest))
unfolding answer_opcode
answer_delivered_example =
    answer_delivered 0 0 con true result [] [] empty (omega arith, omega arith, omega arith)
      (omega arith) empty-IsValid (omega arith)

abbrev ports : Ports
ports = (8001, true) ∷ (8002, false) ∷ []

abbrev report : List ℕ
report = report_bytes node_address ports

report-IsValid : IsValid (holding report)
report-IsValid = record {
  owned = refl;
  read_le = omega arith;
  used_le = omega arith;
  small = omega arith;
}

read_node_info_lem_example :
    (b' : ByteBuffer) × (read_node_info 7 7 con (no_nodes, some (holding report))
      ≡ ok node_info (
        put_node node_address (reported node_address ports (entry 7 7 con no_nodes)) no_nodes,
        some b',
      ))
    × IsValid b'
    × (content b' ≡ [])
read_node_info_lem_example =
    read_node_info_lem 7 7 con no_nodes node_address ports (holding report) [] (omega arith)
      (omega arith) (omega arith, (omega arith, tt)) report-IsValid refl

-- A front end that takes every connection.
abbrev takes_all : Text → ℕ → Option ℕ
takes_all address port = some 3

-- The frame of the report, and a byte that follows it.
abbrev arrived : ByteBuffer
arrived = holding (frame 0x00 report ++ (9 ∷ []))

arrived-IsValid : IsValid arrived
arrived-IsValid = record {
  owned = refl;
  read_le = omega arith;
  used_le = omega arith;
  small = omega arith;
}

node_joins_example :
    ((u : Unconnected) × (c : Client (Unit {0})) × (new_client (λ i. 0) (λ i. 0) s1 7000 ≡ some u)
      × (report_to takes_all node_address ports u ≡ some c)
      × (c.sent ≡ frame 0x00 report ∷ []))
    × ((n : VisualizationNode) × (m' : NodeManager) × (b' : ByteBuffer) × (handle_packet
            (factories 7 7 con)
            (no_nodes, arrived)
          ≡ ok (some node_info) (m', b'))
        × (get_node node_address m' ≡ some n)
        × (n.slot_tracker ≡ ports)
        × IsCounted n
        × IsValid b'
        × (content b' ≡ 9 ∷ []))
unfolding get_node re_mo_lon.Common.Assoc.find
node_joins_example =
    node_joins takes_all (λ i. 0) (λ i. 0) s1 7000 3 node_address ports 7 7 con no_nodes arrived
      (9 ∷ []) refl ((refl, tt), (tt, tt)) (omega arith) (omega arith)
      (omega arith, (omega arith, tt)) (omega arith) refl arrived-IsValid refl
