-- ===== src/FrontEnd/Packets.antt =====
-- ReMoLON_FrontEnd/src/serverpackets and ReMoLON_FrontEnd/src/clientpackets: the packets that the
-- front end sends to a node, with their `writeImpl`, and those that it reads.
use re_mo_lon.Common.{ℕ}
use re_mo_lon.Common.Eq.{Text}
use re_mo_lon.Common.Outcome.{◌>>=◌, ◌>>◌, pure}
use re_mo_lon.Util.Packet.{Attached, write_string, write_int, read_string, read_int}

-- A `Connection *`: which connection it is, and its `clientAddress ( )`.
pub record ConnectionRef : Type 0 where
  pub id : ℕ
  pub client_address : Text

pub record StartRequest : Type 0 where
  pub user_name : Text
  pub user_address : Text
  pub session_name : Text
  pub port : ℕ

pub record CloseRequest : Type 0 where
  pub user_name : Text
  pub session_name : Text

pub data ServerPacket : Type 0 where
  request_node_info : ServerPacket
  request_start_streaming_session : StartRequest → ServerPacket
  request_close_user_session : CloseRequest → ServerPacket

unfoldable pub get_opcode : ServerPacket → ℕ
get_opcode request_node_info = 0x00
get_opcode (request_start_streaming_session r) = 0x01
get_opcode (request_close_user_session r) = 0x02

unfoldable pub write_impl : ServerPacket → Attached (Unit {0})
write_impl request_node_info = pure tt
write_impl (request_start_streaming_session r) = do
  write_string r.user_name
  write_string r.user_address
  write_string r.session_name
  write_int r.port
write_impl (request_close_user_session r) = do write_string r.user_name; write_string r.session_name

-- StartStreamingSessionResult and CloseSessionResult have the same three fields.
pub record SessionResult : Type 0 where
  pub user_name : Text
  pub session_name : Text
  pub status : ℕ

pub data ClientPacket : Type 0 where
  node_info : ClientPacket
  start_streaming_session_result : SessionResult → ClientPacket
  close_session_result : SessionResult → ClientPacket

unfoldable pub read_start_result : Attached ClientPacket
read_start_result = do
  user_name ← read_string
  session_name ← read_string
  creation_status ← read_int
  pure (
      start_streaming_session_result
        (record { user_name = user_name; session_name = session_name; status = creation_status }))

unfoldable pub read_close_result : Attached ClientPacket
read_close_result = do
  user ← read_string
  session_name ← read_string
  close_status ← read_int
  pure (
      close_session_result
        (record { user_name = user; session_name = session_name; status = close_status }))
