-- ===== src/Node/SessionManager/Handlers.antt =====
-- `executePacketAction` of the packets of ReMoLON/src/frontendserverpackets and
-- ReMoLON/src/remotooclientpackets, on a node's session manager.
use re_mo_lon.Common.{ℕ, ◌%◌, ◌^◌, List, [], Option, none, some, Bool}
use re_mo_lon.Common.Eq.{text_eq}
use re_mo_lon.Node.Packets.{
  FrontendRequest, request_node_info, request_start_streaming_session, request_close_user_session,
  FrontendAnswer, node_info, close_session_result, RemotooRequest, RemotooAnswer, session_info,
  allow_address_answer,
}
use re_mo_lon.Node.SessionManager.{
  SessionManager, set_connection, put_session, get_stream_session, start_new_session,
  finish_session,
}

-- `executePacketAction` of the packets from the front end: the answer that the node's client gets,
-- and what goes to the streaming processes. `startNewSession` takes the port as a `uint16_t`.
abbrev pub Handled : Type 0
Handled = Option (FrontendAnswer × List (ℕ × RemotooRequest) × SessionManager)

unfoldable pub handle_request : Bool → FrontendRequest → SessionManager → Handled
handle_request launched request_node_info m = some (node_info, [], m)
handle_request launched (request_start_streaming_session r) m =
    let (answer, m') =
      start_new_session launched r.user r.user_address r.session_name (r.port % 2 ^ 16) m in
    some (answer, [], m')
handle_request launched (request_close_user_session user name) m =
    elim (finish_session user name m) [
      | none ↦ none
      | some (sent, m') ↦ some (close_session_result user name 0, sent, m')
    ]

-- `executePacketAction` of the packets from a streaming process, on connection `con`.
unfoldable pub handle_answer : ℕ → RemotooAnswer → SessionManager → SessionManager
handle_answer con (session_info name owner) m =
    let (found, m') = get_stream_session owner name m in
    elim found [
      | none ↦ m'
      | some s ↦ record m' {
        stream_sessions = put_session (set_connection con s) owner name m'.stream_sessions;
      }
    ]
handle_answer con (allow_address_answer address allowed) m = m
