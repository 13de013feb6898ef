-- ===== src/FrontEnd/Answers.antt =====
-- ReMoLON_FrontEnd/src/clientpackets: what the packets of a node do when a thread of the pool runs
-- them.
pub mod Effects
use re_mo_lon.Common.{ℕ, Option, none, some}
use re_mo_lon.Common.Eq.{Text}
use re_mo_lon.FrontEnd.Packets.{
  ClientPacket, node_info, start_streaming_session_result, close_session_result, SessionResult,
}
use re_mo_lon.FrontEnd.UserManager.{get_user_by_name}
use re_mo_lon.FrontEnd.SessionTracker.{create_session, finish_session}
use re_mo_lon.FrontEnd.HttpActions.{Front, put_user}

-- StartStreamingSessionResult. The status is an `int`, which is 0 or not.
unfoldable pub execute_start_result : SessionResult → Front → Front
execute_start_result p f = elim (get_user_by_name p.user_name f.users) [
  | none ↦ f
  | some (ip, usr) ↦ record f { tracker = create_session usr p.session_name p.status f.tracker }
]

-- CloseSessionResult
unfoldable pub execute_close_result : SessionResult → Front → Front
execute_close_result p f = elim (get_user_by_name p.user_name f.users) [
  | none ↦ f
  | some (ip, usr) ↦
      let (usr', t) = finish_session usr p.session_name f.tracker in put_user ip usr' t f
]

-- NodeInfo has done its work when it was read.
unfoldable pub execute_packet_action : ClientPacket → Front → Front
execute_packet_action node_info f = f
execute_packet_action (start_streaming_session_result p) f = execute_start_result p f
execute_packet_action (close_session_result p) f = execute_close_result p f
