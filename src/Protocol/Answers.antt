-- ===== src/Protocol/Answers.antt =====
-- From a node to the front end: the results of requests.
use re_mo_lon.Common.{ℕ, ◌+◌, ◌^◌, ◌<◌, ◌≡◌, refl, List, ◌++◌, Bool, some, arith, length}
use re_mo_lon.Common.Eq.{Text}
use re_mo_lon.Common.Outcome.{ok}
use re_mo_lon.Util.ByteBuffer.{ByteBuffer, bytes_4}
use re_mo_lon.Util.ByteBuffer.Content.{IsValid, content}
use re_mo_lon.Util.ByteBuffer.Writes.{string_bytes}
use re_mo_lon.Util.Packet.{Attached, write_packet}
use re_mo_lon.Util.Packet.Framing.{frame, write_packet-Sends}
use re_mo_lon.Util.Packet.Fields.{
  Sends, Receives, string-Sends, string-Receives, last_int-Receives, write_int-Sends,
}
use re_mo_lon.Util.PacketHandler.{handle_packet, on_packet}
use re_mo_lon.Util.PacketHandler.Dispatch.{handle_packet-Receives}
use re_mo_lon.FrontEnd.Packets.{
  ConnectionRef, ClientPacket, SessionResult, read_start_result, read_close_result,
}
use re_mo_lon.FrontEnd.Packets as FE
use re_mo_lon.FrontEnd.NodeManager.{NodeManager}
use re_mo_lon.FrontEnd.NodeInfo.{factories}
use re_mo_lon.Node.Packets.{write_session_result, write_answer, answer_opcode}
use re_mo_lon.Node.Packets as Node
use re_mo_lon.Protocol.Requests.{IsShort}

abbrev pub result_bytes : SessionResult → List ℕ
result_bytes r = string_bytes r.user_name ++ (string_bytes r.session_name ++ bytes_4 r.status)

abbrev pub IsResult : SessionResult → Type 0
IsResult r = IsShort r.user_name × IsShort r.session_name × (r.status < 2 ^ 32)

-- Whether the result is of a start or of a close.
abbrev pub as_answer : Bool → SessionResult → Node.FrontendAnswer
as_answer Bool.true r = Node.start_streaming_session_result r.user_name r.session_name r.status
as_answer Bool.false r = Node.close_session_result r.user_name r.session_name r.status

abbrev pub as_packet : Bool → SessionResult → ClientPacket
as_packet Bool.true r = FE.start_streaming_session_result r
as_packet Bool.false r = FE.close_session_result r

abbrev reader : Bool → Attached ClientPacket
reader Bool.true = read_start_result
reader Bool.false = read_close_result

write_session_result-Sends :
    (r : SessionResult)
    → IsResult r
    → Sends (write_session_result r.user_name r.session_name r.status) (result_bytes r)
unfolding write_session_result
write_session_result-Sends r (hu, hs, hk) =
    let status = write_int-Sends r.status in
    let name = string-Sends _ _ status r.session_name (omega arith) in
    string-Sends _ _ name r.user_name (omega arith)

write_answer-Sends :
    (kind : Bool) (r : SessionResult) (address : Text) (ports : List (ℕ × Bool))
    → IsResult r
    → Sends (write_answer address ports (as_answer kind r)) (result_bytes r)
unfolding write_answer
write_answer-Sends Bool.true r address ports h = write_session_result-Sends r h
write_answer-Sends Bool.false r address ports h = write_session_result-Sends r h

reader-Receives :
    (kind : Bool) (r : SessionResult)
    → IsResult r
    → Receives (reader kind) (result_bytes r) (as_packet kind r)
unfolding read_start_result read_close_result
reader-Receives Bool.true r (hu, hs, hk) =
    let last : ℕ → ClientPacket = λ k.
      FE.start_streaming_session_result
        (record { user_name = r.user_name; session_name = r.session_name; status = k }) in
    string-Receives _ (as_packet Bool.true r) r.user_name _ hu (
      string-Receives _ (as_packet Bool.true r) r.session_name _ hs
        (last_int-Receives r.status last hk))
reader-Receives Bool.false r (hu, hs, hk) =
    let last : ℕ → ClientPacket = λ k.
      FE.close_session_result
        (record { user_name = r.user_name; session_name = r.session_name; status = k }) in
    string-Receives _ (as_packet Bool.false r) r.user_name _ hu (
      string-Receives _ (as_packet Bool.false r) r.session_name _ hs
        (last_int-Receives r.status last hk))

module _ (junk_total junk_used : ℕ) (con : ConnectionRef) where
  registered :
      (kind : Bool) (r : SessionResult)
      → (factories junk_total junk_used con (answer_opcode (as_answer kind r))
          ≡ some (on_packet (reader kind)))
        × (answer_opcode (as_answer kind r) < 128)
  unfolding answer_opcode factories
  registered Bool.true r = (refl, omega arith)
  registered Bool.false r = (refl, omega arith)

  -- For a session result with short strings and a 32-bit status, of either kind, and a valid send
  -- buffer with room: what the node writes is its frame, and on any valid buffer whose content
  -- starts with that frame the front end's packet handler answers the same result, changes no
  -- node, and leaves what follows.
  pub answer_delivered :
      (kind : Bool) (r : SessionResult) (address : Text) (ports : List (ℕ × Bool)) (b : ByteBuffer)
      → IsResult r
      → length (result_bytes r) < 2 ^ 16
      → IsValid b
      → b.used + length (result_bytes r) + 3 < b.size
      → let answer = as_answer kind r in
        (b' : ByteBuffer) × (write_packet
            (answer_opcode answer)
            (write_answer address ports answer)
            (some b)
          ≡ ok tt (some b'))
        × (content b' ≡ content b ++ frame (answer_opcode answer) (result_bytes r))
        × ((m : NodeManager) (c : ByteBuffer) (rest : List ℕ)
            → IsValid c
            → content c ≡ frame (answer_opcode answer) (result_bytes r) ++ rest
            → (c' : ByteBuffer) × (handle_packet (factories junk_total junk_used con) (m, c)
                ≡ ok (some (as_packet kind r)) (m, c'))
              × IsValid c'
              × (content c' ≡ rest))
  answer_delivered kind r address ports b h fits v room =
      let answer = as_answer kind r in
      let (known, low) = registered kind r in
      let (b', e, q) =
        write_packet-Sends (answer_opcode answer) (write_answer address ports answer)
          (result_bytes r) (write_answer-Sends kind r address ports h) b v (omega arith) in
      (
        b',
        e,
        q.content_grows,
        λ m c rest vc ec.
            handle_packet-Receives (factories junk_total junk_used con) m c vc
              (answer_opcode answer) (reader kind) (result_bytes r) rest (as_packet kind r) low
              known (reader-Receives kind r h) fits ec,
      )
