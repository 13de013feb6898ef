-- ===== src/Node/Packets.antt =====
-- ReMoLON/src/frontendserverpackets, ReMoLON/src/frontendclientpackets,
-- ReMoLON/src/remotooserverpackets and ReMoLON/src/remotooclientpackets: the packets that a node
-- reads and writes. What they do when they run is in SessionManager.
use re_mo_lon.Common.{ℕ, ◌%◌, ◌^◌, List, [], ◌∷◌, Bool, ltb, if◌then◌else◌, ◌&&◌, length}
use re_mo_lon.Common.Eq.{Text}
use re_mo_lon.Common.Outcome.{◌>>=◌, ◌>>◌, pure}
use re_mo_lon.Util.PacketHandler.{Factories, no_factories, updated, on_packet}
use re_mo_lon.Util.Packet.{Attached, write_string, write_int, read_string, read_int}

pub record StartRequest : Type 0 where
  pub user : Text
  pub user_address : Text
  pub session_name : Text
  pub port : ℕ

-- From the front end.
pub data FrontendRequest : Type 0 where
  request_node_info : FrontendRequest
  request_start_streaming_session : StartRequest → FrontendRequest
  request_close_user_session : Text → Text → FrontendRequest

unfoldable pub read_request_node_info : Attached FrontendRequest
read_request_node_info = pure request_node_info

unfoldable pub read_request_start : Attached FrontendRequest
read_request_start = do
  user ← read_string
  user_address ← read_string
  session_name ← read_string
  port ← read_int
  pure (
      request_start_streaming_session (record {
        user = user;
        user_address = user_address;
        session_name = session_name;
        port = port;
      }))

unfoldable pub read_request_close : Attached FrontendRequest
read_request_close = do
  user_name ← read_string
  session_name ← read_string
  pure (request_close_user_session user_name session_name)

-- The packets that the node's client registers.
unfoldable pub frontend_factories : Factories (Unit {0}) FrontendRequest
frontend_factories =
    updated
      (updated (updated no_factories 0x00 (on_packet read_request_node_info)) 0x01
        (on_packet read_request_start))
      0x02 (on_packet read_request_close)

-- To the front end. The fields of NodeInfo are those of the session manager when it is written.
pub data FrontendAnswer : Type 0 where
  node_info : FrontendAnswer
  start_streaming_session_result : Text → Text → ℕ → FrontendAnswer
  close_session_result : Text → Text → ℕ → FrontendAnswer

unfoldable pub answer_opcode : FrontendAnswer → ℕ
answer_opcode node_info = 0x00
answer_opcode (start_streaming_session_result u s k) = 0x01
answer_opcode (close_session_result u s k) = 0x02

unfoldable pub write_ports : List (ℕ × Bool) → Attached (Unit {0})
write_ports [] = pure tt
write_ports ((port, used) ∷ ports) = do
  write_int port
  write_int (if used then 1 else 0)
  write_ports ports

unfoldable pub write_node_info : Text → List (ℕ × Bool) → Attached (Unit {0})
write_node_info address port_list = do
  write_string address
  write_int (length port_list % 2 ^ 32)
  write_ports port_list

unfoldable pub write_session_result : Text → Text → ℕ → Attached (Unit {0})
write_session_result user_name session_name status = do
  write_string user_name
  write_string session_name
  write_int status

-- The two arguments are the public address and the port list of the session manager.
unfoldable pub write_answer : Text → List (ℕ × Bool) → FrontendAnswer → Attached (Unit {0})
write_answer address port_list node_info = write_node_info address port_list
write_answer address port_list (start_streaming_session_result u s k) = write_session_result u s k
write_answer address port_list (close_session_result u s k) = write_session_result u s k

-- To a streaming process.
pub data RemotooRequest : Type 0 where
  request_session_info : RemotooRequest
  request_allow_address : Text → RemotooRequest
  request_finish_session : RemotooRequest

unfoldable pub remotoo_opcode : RemotooRequest → ℕ
remotoo_opcode request_session_info = 0x00
remotoo_opcode (request_allow_address a) = 0x01
remotoo_opcode request_finish_session = 0x02

unfoldable pub write_remotoo : RemotooRequest → Attached (Unit {0})
write_remotoo request_session_info = pure tt
write_remotoo (request_allow_address address) = write_string address
write_remotoo request_finish_session = pure tt

-- From a streaming process.
pub data RemotooAnswer : Type 0 where
  session_info : Text → Text → RemotooAnswer
  allow_address_answer : Text → Bool → RemotooAnswer

unfoldable pub read_session_info : Attached RemotooAnswer
read_session_info = do
  session_name ← read_string
  user_owner ← read_string
  pure (session_info session_name user_owner)

-- An `int` above 0.
abbrev pub is_positive : ℕ → Bool
is_positive i = ltb 0 i && ltb i (2 ^ 31)

unfoldable pub read_allow_address_answer : Attached RemotooAnswer
read_allow_address_answer = do
  target_address ← read_string
  allowed ← read_int
  pure (allow_address_answer target_address (is_positive allowed))

-- The packets that the node's server for the streaming processes registers.
unfoldable pub remotoo_factories : Factories (Unit {0}) RemotooAnswer
remotoo_factories =
    updated (updated no_factories 0x00 (on_packet read_session_info)) 0x01
      (on_packet read_allow_address_answer)
