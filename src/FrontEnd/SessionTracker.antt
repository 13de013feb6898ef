-- ===== src/FrontEnd/SessionTracker.antt =====
-- ReMoLON_FrontEnd/include/SessionTracker.h and ReMoLON_FrontEnd/src/SessionTracker.cpp.
-- A method takes the `User &` and gives it back; its caller puts it where the reference points.
-- Each method runs under the user's lock, so it is one step.
pub mod Reservation
pub mod Lookup
pub mod Exclusive
pub mod Calls
pub mod Threads
use re_mo_lon.Common.{
  ℕ, zero, suc, ◌+◌, ◌<◌, List, [], ◌∷◌, ◌++◌, Option, none, some, Bool, true, false, ltb, nat_beq,
  if◌then◌else◌, ◌&&◌, ◌||◌, not,
}
use re_mo_lon.Common.Eq.{Text, text_eq}
use re_mo_lon.Common.Assoc
use re_mo_lon.FrontEnd.Packets.{
  ConnectionRef, ServerPacket, request_start_streaming_session, request_close_user_session,
}
use re_mo_lon.FrontEnd.User.{User, get_user_name, get_address, add_session, remove_session}
use re_mo_lon.FrontEnd.VisualizationNode.{VisualizationNode, try_reserve_slot, send_packet}
use re_mo_lon.FrontEnd.NodeManager.{NodeManager, find_best_node, get_node, put_node}

pub data SessionStatus : Type 0 where
  uninitialized creating running closing crashed : SessionStatus

pub record SessionInfo : Type 0 where
  pub session_name : Text
  pub owner_ip : Text
  pub owner_username : Text
  pub node_address : Text
  pub node_public_address : Text
  pub node_port : ℕ
  pub status : SessionStatus

-- Key: session name.
abbrev pub SessionList : Type 0
SessionList = List (Text × SessionInfo)

-- `_openSessions`, by user name.
abbrev pub OpenSessions : Type 0
OpenSessions = List (Text × SessionList)

pub data CreationResult : Type 0 where
  creation_ok fail_duplicate_name fail_no_available_nodes : CreationResult

-- What the methods share: the sessions, the nodes, and what has been sent to the nodes.
pub record Tracker : Type 0 where
  pub open_sessions : OpenSessions
  pub nodes : NodeManager
  pub sent : List (ConnectionRef × ServerPacket)

-- `_openSessions [ user ]`, which puts an empty list there if the user has none.
abbrev pub sessions_of : Text → OpenSessions → SessionList
sessions_of user s = elim (Assoc.find user s) [ none ↦ [] | some l ↦ l ]

unfoldable pub get_session_info : User → Text → OpenSessions → Option SessionInfo
get_session_info user session_name s = elim (Assoc.find (get_user_name user) s) [
  | none ↦ none
  | some l ↦ Assoc.find session_name l
]

-- A write through the pointer that `getSessionInfo` returns.
abbrev pub set_session_info : User → Text → SessionInfo → OpenSessions → OpenSessions
set_session_info user session_name info s =
    let name = get_user_name user in
    Assoc.assign name (Assoc.assign session_name info (sessions_of name s)) s

pub data Search : Type 0 where
  -- The loop ends with a reserved slot: the node, its address, and the port.
  reserved : Text → VisualizationNode → ℕ → NodeManager → Search
  no_node : Search
  -- The loop ends after its attempts, with no slot.
  gave_up : NodeManager → Search
  -- No end within the fuel.
  still_searching : Search

-- The do-while of `tryCreateSession`. No round changes `attempt`.
unfoldable pub search_slot : ℕ → ℕ → ℕ → NodeManager → Search
search_slot zero attempt choosen_port m = still_searching
search_slot (suc fuel) attempt choosen_port m = elim (find_best_node m) [
  | none ↦ no_node
  | some (address, node) ↦
      let ((slot_reserved, port), node') = try_reserve_slot choosen_port node in
      let m' = put_node address node' m in
      let again = search_slot fuel attempt port m' in
      if slot_reserved
      then reserved address node' port m'
      else (if ltb attempt 20 then again else gave_up m')
]

-- The session that is written to the tracker.
abbrev pub new_session : User → Text → VisualizationNode → ℕ → SessionInfo
new_session user session_name node port = record {
  session_name = session_name;
  owner_ip = get_address user;
  owner_username = get_user_name user;
  node_address = node.address;
  node_public_address = node.public_address;
  node_port = port;
  status = creating;
}

abbrev pub start_packet : User → Text → ℕ → ServerPacket
start_packet user session_name port = request_start_streaming_session (record {
  user_name = get_user_name user;
  user_address = get_address user;
  session_name = session_name;
  port = port;
})

-- What follows the search.
unfoldable pub enter_session :
    User → Text → VisualizationNode → ℕ → NodeManager → Tracker → CreationResult × User × Tracker
enter_session user session_name node port m t = (
  creation_ok,
  add_session session_name node.address user,
  record {
    open_sessions =
        set_session_info user session_name (new_session user session_name node port)
          t.open_sessions;
    nodes = m;
    sent = t.sent ++ send_packet (start_packet user session_name port) node;
  },
)

-- `none`: the search did not end within the fuel.
unfoldable pub try_create_session :
    ℕ → User → Text → Tracker → Option (CreationResult × User × Tracker)
try_create_session fuel user session_name t =
    elim (get_session_info user session_name t.open_sessions) [
      | some _ ↦ some (fail_duplicate_name, user, t)
      | none ↦ elim (search_slot fuel 0 0 t.nodes) [
        | reserved address node port m ↦ some (enter_session user session_name node port m t)
        | no_node ↦ some (fail_no_available_nodes, user, t)
        | gave_up m ↦ some (fail_no_available_nodes, user, record t { nodes = m })
        | still_searching ↦ none
      ]
    ]

-- The status 0 of a result is success.
abbrev pub result_status : ℕ → SessionStatus
result_status status = if nat_beq status 0 then running else crashed

unfoldable pub create_session : User → Text → ℕ → Tracker → Tracker
create_session user session_name status t =
    elim (get_session_info user session_name t.open_sessions) [
      | none ↦ t
      | some info ↦ record t {
        open_sessions =
            set_session_info user session_name (record info { status = result_status status })
              t.open_sessions;
      }
    ]

unfoldable pub finish_session : User → Text → Tracker → User × Tracker
finish_session user session_name t =
    let name = get_user_name user in
    elim (Assoc.find name t.open_sessions) [
      | none ↦ (user, t)
      | some l ↦ elim (Assoc.find session_name l) [
        | none ↦ (user, t)
        | some _ ↦ (
          remove_session session_name user,
          record t {
            open_sessions = Assoc.assign name (Assoc.erase session_name l) t.open_sessions;
          },
        )
      ]
    ]

unfoldable pub try_finish_session : User → Text → Tracker → User × Tracker
try_finish_session user session_name t = elim (get_session_info user session_name t.open_sessions) [
  | none ↦ (user, t)
  | some info ↦
      let t' : Tracker = record t {
        open_sessions =
            set_session_info user session_name (record info { status = closing }) t.open_sessions;
      } in
      elim (get_node info.node_address t.nodes) [
        | none ↦ finish_session user session_name t'
        | some node ↦ (
          user,
          record t' {
            sent =
                t'.sent
                ++ send_packet
                    (request_close_user_session
                      (record { user_name = get_user_name user; session_name = session_name }))
                    node;
          },
        )
      ]
]

-- `getUserSessions`: the list is there afterwards, if it was not.
unfoldable pub get_user_sessions : User → OpenSessions → SessionList × OpenSessions
get_user_sessions user s =
    let l = sessions_of (get_user_name user) s in (l, Assoc.assign (get_user_name user) l s)
