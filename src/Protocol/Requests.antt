-- ===== src/Protocol/Requests.antt =====
-- From the front end to a node.
use re_mo_lon.Common.{ℕ, ◌+◌, ◌^◌, ◌<◌, ◌≡◌, refl, List, [], ◌++◌, some, arith, length}
use re_mo_lon.Common.Eq.{Text}
use re_mo_lon.Common.Outcome.{ok}
use re_mo_lon.Util.ByteBuffer.{bytes_4}
use re_mo_lon.Util.ByteBuffer.Writes.{string_bytes}
use re_mo_lon.Util.Packet.{Attached, write_string, write_packet}
use re_mo_lon.Util.Packet.Framing.{frame, write_packet-Sends}
use re_mo_lon.Util.Packet.Fields.{
  string-Sends, string-Receives, last_string-Receives, last_int-Receives, Sends, Receives,
  nothing-Sends, write_string-Sends, write_int-Sends, pure-Receives,
}
use re_mo_lon.Util.ByteBuffer.{ByteBuffer}
use re_mo_lon.Util.ByteBuffer.Content.{IsValid, content}
use re_mo_lon.Util.PacketHandler.{handle_packet, on_packet}
use re_mo_lon.Util.PacketHandler.Dispatch.{handle_packet-Receives}
use re_mo_lon.Node.Packets.{frontend_factories}
use re_mo_lon.FrontEnd.Packets.{ServerPacket, write_impl, get_opcode}
use re_mo_lon.FrontEnd.Packets as FE
use re_mo_lon.Node.Packets.{
  FrontendRequest, read_request_node_info, read_request_start, read_request_close,
}
use re_mo_lon.Node.Packets as Node

-- The content of a packet in bytes.
abbrev pub request_bytes : ServerPacket → List ℕ
request_bytes FE.request_node_info = []
request_bytes (FE.request_start_streaming_session r) =
    string_bytes r.user_name
    ++ (string_bytes r.user_address ++ (string_bytes r.session_name ++ bytes_4 r.port))
request_bytes (FE.request_close_user_session r) =
    string_bytes r.user_name ++ string_bytes r.session_name

-- The same packet as the node holds it.
abbrev pub received : ServerPacket → FrontendRequest
received FE.request_node_info = Node.request_node_info
received (FE.request_start_streaming_session r) = Node.request_start_streaming_session (record {
  user = r.user_name;
  user_address = r.user_address;
  session_name = r.session_name;
  port = r.port;
})
received (FE.request_close_user_session r) =
    Node.request_close_user_session r.user_name r.session_name

-- The strings are short enough for their lengths, and the port is an `unsigned int`.
abbrev pub IsShort : Text → Type 0
IsShort s = length s < 2 ^ 16

abbrev pub IsWritable : ServerPacket → Type 0
IsWritable FE.request_node_info = Unit {0}
IsWritable (FE.request_start_streaming_session r) =
    IsShort r.user_name × IsShort r.user_address × IsShort r.session_name × (r.port < 2 ^ 32)
IsWritable (FE.request_close_user_session r) = IsShort r.user_name × IsShort r.session_name

-- The node's reader for each packet.
abbrev pub reader : ServerPacket → Attached FrontendRequest
reader FE.request_node_info = read_request_node_info
reader (FE.request_start_streaming_session r) = read_request_start
reader (FE.request_close_user_session r) = read_request_close

short : (s : Text) → IsShort s → length s < 2 ^ 62
short s h = omega arith

pub write_impl-Sends : (p : ServerPacket) → IsWritable p → Sends (write_impl p) (request_bytes p)
unfolding write_impl
write_impl-Sends FE.request_node_info h = nothing-Sends
write_impl-Sends (FE.request_start_streaming_session r) (hu, ha, hs, hp) =
    let port = write_int-Sends r.port in
    let name = string-Sends _ _ port r.session_name (short _ hs) in
    let address = string-Sends _ _ name r.user_address (short _ ha) in
    string-Sends _ _ address r.user_name (short _ hu)
write_impl-Sends (FE.request_close_user_session r) (hu, hs) =
    string-Sends (write_string r.session_name) _ (write_string-Sends r.session_name (short _ hs))
      r.user_name (short _ hu)

pub reader-Receives :
    (p : ServerPacket) → IsWritable p → Receives (reader p) (request_bytes p) (received p)
unfolding read_request_node_info read_request_start read_request_close
reader-Receives FE.request_node_info h = pure-Receives Node.request_node_info
reader-Receives (FE.request_start_streaming_session r) (hu, ha, hs, hp) =
    let sent : FrontendRequest = received (FE.request_start_streaming_session r) in
    let start : Text → Text → Text → ℕ → FrontendRequest = λ u a s k.
      Node.request_start_streaming_session
        (record { user = u; user_address = a; session_name = s; port = k }) in
    string-Receives _ sent r.user_name _ hu (
      string-Receives _ sent r.user_address _ ha (
        string-Receives _ sent r.session_name _ hs
          (last_int-Receives r.port (start r.user_name r.user_address r.session_name) hp)))
reader-Receives (FE.request_close_user_session r) (hu, hs) =
    string-Receives _ (Node.request_close_user_session r.user_name r.session_name) r.user_name _ hu
      (last_string-Receives r.session_name (Node.request_close_user_session r.user_name) hs)

opcode_small : (p : ServerPacket) → get_opcode p < 128
unfolding get_opcode
opcode_small FE.request_node_info = omega arith
opcode_small (FE.request_start_streaming_session r) = omega arith
opcode_small (FE.request_close_user_session r) = omega arith

registered : (p : ServerPacket) → frontend_factories (get_opcode p) ≡ some (on_packet (reader p))
unfolding get_opcode frontend_factories
registered FE.request_node_info = refl
registered (FE.request_start_streaming_session r) = refl
registered (FE.request_close_user_session r) = refl

-- For a request whose strings have fewer than 2 ^ 16 bytes, whose port fits in 32 bits and whose
-- content has fewer than 2 ^ 16 bytes, and a valid send buffer with room for its frame: writing
-- the packet appends its frame to the buffer, and on any valid buffer whose content starts with
-- that frame the node's packet handler answers the same request and leaves what follows the frame.
pub request_delivered :
    (p : ServerPacket) (b : ByteBuffer)
    → IsWritable p
    → length (request_bytes p) < 2 ^ 16
    → IsValid b
    → b.used + length (request_bytes p) + 3 < b.size
    → (b' : ByteBuffer) × (write_packet (get_opcode p) (write_impl p) (some b) ≡ ok tt (some b'))
      × (content b' ≡ content b ++ frame (get_opcode p) (request_bytes p))
      × ((c : ByteBuffer) (rest : List ℕ)
          → IsValid c
          → content c ≡ frame (get_opcode p) (request_bytes p) ++ rest
          → (c' : ByteBuffer) × (handle_packet frontend_factories (tt, c)
              ≡ ok (some (received p)) (tt, c'))
            × IsValid c'
            × (content c' ≡ rest))
request_delivered p b h fits v room =
    let (b', e, q) =
      write_packet-Sends (get_opcode p) (write_impl p) (request_bytes p) (write_impl-Sends p h) b v
        (omega arith) in
    (
      b',
      e,
      q.content_grows,
      λ c rest vc ec.
          handle_packet-Receives frontend_factories tt c vc (get_opcode p) (reader p)
            (request_bytes p) rest (received p) (opcode_small p) (registered p)
            (reader-Receives p h) fits ec,
    )
