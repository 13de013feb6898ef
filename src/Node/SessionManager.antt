-- ===== src/Node/SessionManager.antt =====
-- ReMoLON/src/SessionManager.cpp and ReMoLON/src/StreamingSession.cpp with their headers. The mutex
-- of the manager makes each method one step. What a method sends comes with its result. Whether the
-- thread of a session can be made is an argument, and the end of its process is a call of
-- `clear_session`.
pub mod Handlers
pub mod Sessions
pub mod Ports
pub mod Invariant
pub mod Calls
pub mod Steps
pub mod Ends
use re_mo_lon.Common.{
  ℕ, ◌%◌, ◌^◌, List, [], ◌∷◌, ◌++◌, Option, none, some, Bool, true, false, if◌then◌else◌, not,
  nat_beq, ◌||◌,
}
use re_mo_lon.Common.Eq.{Text, nat_eq, text_eq}
use re_mo_lon.Common.Assoc.{find, assign, erase}
use re_mo_lon.Node.Packets.{
  FrontendRequest, request_node_info, request_start_streaming_session, request_close_user_session,
  FrontendAnswer, node_info, start_streaming_session_result, close_session_result, RemotooRequest,
  request_finish_session, RemotooAnswer, session_info, allow_address_answer,
}

-- `_connection` is not initialised: `none` before `setConnection`.
pub record StreamingSession : Type 0 where
  pub session_name : Text
  pub session_owner : Text
  pub session_owner_address : Text
  pub session_port : ℕ
  pub session_sock_port : ℕ
  pub session_rtc_port : ℕ
  pub allowed_users : List (Text × Text)
  pub connection : Option ℕ

-- What the setters leave in a session that `operator[]` has just made.
abbrev pub new_session : Text → Text → Text → ℕ → ℕ → ℕ → StreamingSession
new_session name owner address port sock_port rtc_port = record {
  session_name = name;
  session_owner = owner;
  session_owner_address = address;
  session_port = port;
  session_sock_port = sock_port;
  session_rtc_port = rtc_port;
  allowed_users = [];
  connection = none;
}

abbrev pub set_connection : ℕ → StreamingSession → StreamingSession
set_connection con s = record s { connection = some con }

abbrev pub add_allowed_user : Text → Text → StreamingSession → StreamingSession
add_allowed_user user_name user_address s = record s {
  allowed_users = assign user_name user_address s.allowed_users;
}

abbrev pub PortTable : Type 0
PortTable = List (ℕ × Bool)

abbrev pub SessionLists : Type 0
SessionLists = List (Text × List (Text × StreamingSession))

pub record SessionManager : Type 0 where
  pub public_address : Text
  pub used_ports : PortTable
  pub used_sock_ports : PortTable
  pub used_rtc_ports : PortTable
  pub stream_sessions : SessionLists

abbrev pub set_public_address : Text → SessionManager → SessionManager
set_public_address address m = record m { public_address = address }

abbrev pub add_available_port : ℕ → SessionManager → SessionManager
add_available_port port m = record m { used_ports = assign port false m.used_ports }

abbrev pub add_available_socket_port : ℕ → SessionManager → SessionManager
add_available_socket_port port m = record m {
  used_sock_ports = assign port false m.used_sock_ports;
}

abbrev pub add_available_rtc_port : ℕ → SessionManager → SessionManager
add_available_rtc_port port m = record m { used_rtc_ports = assign port false m.used_rtc_ports }

-- The port, 0 if there is none, and the table with that port in use.
unfoldable pub find_available_port : PortTable → ℕ × PortTable
find_available_port [] = (0, [])
find_available_port ((port, used) ∷ source) =
    let (later, rest) = find_available_port source in
    if not used then (port, (port, true) ∷ source) else (later, (port, used) ∷ rest)

-- `_streamSessions [ owner ]`: an owner without a list gets an empty one.
abbrev pub list_of : Text → SessionLists → List (Text × StreamingSession)
list_of owner lists = elim (find owner lists) [ none ↦ [] | some l ↦ l ]

abbrev pub with_list : Text → SessionLists → SessionLists
with_list owner lists = assign owner (list_of owner lists) lists

abbrev pub put_session : StreamingSession → Text → Text → SessionLists → SessionLists
put_session s owner name lists = assign owner (assign name s (list_of owner lists)) lists

unfoldable pub get_stream_session :
    Text → Text → SessionManager → Option StreamingSession × SessionManager
get_stream_session owner name m = (
  find name (list_of owner m.stream_sessions),
  record m { stream_sessions = with_list owner m.stream_sessions },
)

-- SESSION_LAUNCH_OK, SESSION_LAUNCH_DUPLICATE_NAME, SESSION_LAUNCH_PORT_UNAVAILABLE and
-- SESSION_LAUNCH_CRASHED
abbrev pub launch_ok : ℕ
launch_ok = 0

abbrev pub launch_duplicate_name : ℕ
launch_duplicate_name = 1

abbrev pub launch_port_unavailable : ℕ
launch_port_unavailable = 2

abbrev pub launch_crashed : ℕ
launch_crashed = 3

-- The state that both refusals and a launch start from: a socket port and an RTC port are taken.
abbrev pub with_ports_taken : SessionManager → SessionManager
with_ports_taken m = record m {
  used_sock_ports = (find_available_port m.used_sock_ports).1;
  used_rtc_ports = (find_available_port m.used_rtc_ports).1;
}

-- The part of `startNewSession` after the ports are found: the launch, its answer's status, and
-- the manager. `launched` is the result of `tryLaunchSession`.
unfoldable pub enter_session :
    Bool → Text → Text → Text → ℕ → ℕ → ℕ → SessionManager → ℕ × SessionManager
enter_session launched owner address name port sock_port rtc_port m =
    let m' = record m { used_ports = assign port true m.used_ports } in
    elim (find name (list_of owner m'.stream_sessions)) [
      | some _ ↦ (
        launch_duplicate_name,
        record m' { stream_sessions = with_list owner m'.stream_sessions },
      )
      | none ↦
          let session = new_session name owner address port sock_port rtc_port in
          (
            if launched then launch_ok else launch_crashed,
            record m' { stream_sessions = put_session session owner name m'.stream_sessions },
          )
    ]

unfoldable pub start_status : Bool → Text → Text → Text → ℕ → SessionManager → ℕ × SessionManager
start_status launched owner address name port m =
    let sock_port = (find_available_port m.used_sock_ports).0 in
    let rtc_port = (find_available_port m.used_rtc_ports).0 in
    let m' = with_ports_taken m in
    let entered = enter_session launched owner address name port sock_port rtc_port m' in
    elim (find port m.used_ports) [
      | none ↦ (launch_port_unavailable, m')
      | some used ↦
          if used || (nat_beq sock_port 0 || nat_beq rtc_port 0)
          then (launch_port_unavailable, m')
          else entered
    ]

unfoldable pub start_new_session :
    Bool → Text → Text → Text → ℕ → SessionManager → FrontendAnswer × SessionManager
start_new_session launched owner address name port m =
    let (status, m') = start_status launched owner address name port m in
    (start_streaming_session_result owner name status, m')

-- `StreamingSession::finishSession`: the connection and the packet it is given; `none` where the
-- pointer was never set.
abbrev pub finish : StreamingSession → Option (ℕ × RemotooRequest)
finish s = elim s.connection [ none ↦ none | some con ↦ some (con, request_finish_session) ]

-- What a call sends to the streaming processes, and the manager; no result where the call follows
-- a pointer that was never set.
abbrev pub Sent : Type 0
Sent = Option (List (ℕ × RemotooRequest) × SessionManager)

unfoldable pub finish_session : Text → Text → SessionManager → Sent
finish_session owner name m =
    let (found, m') = get_stream_session owner name m in
    elim found [
      | none ↦ some ([], m')
      | some s ↦ elim (finish s) [ none ↦ none | some sent ↦ some (sent ∷ [], m') ]
    ]

unfoldable pub clear_session : StreamingSession → SessionManager → SessionManager
clear_session s m =
    let l = list_of s.session_owner m.stream_sessions in
    record m {
      used_ports = assign s.session_port false m.used_ports;
      used_sock_ports = assign s.session_sock_port false m.used_sock_ports;
      used_rtc_ports = assign s.session_rtc_port false m.used_rtc_ports;
      stream_sessions = assign s.session_owner (erase s.session_name l) m.stream_sessions;
    }

unfoldable pub finish_list : List (Text × StreamingSession) → Option (List (ℕ × RemotooRequest))
finish_list [] = some []
finish_list ((name, s) ∷ l) =
    let rest = finish_list l in
    elim (finish s) [
      | none ↦ none
      | some sent ↦ elim rest [ none ↦ none | some later ↦ some (sent ∷ later) ]
    ]

unfoldable pub finish_lists : SessionLists → Option (List (ℕ × RemotooRequest))
finish_lists [] = some []
finish_lists ((owner, l) ∷ lists) =
    let rest = finish_lists lists in
    elim (finish_list l) [
      | none ↦ none
      | some sent ↦ elim rest [ none ↦ none | some later ↦ some (sent ++ later) ]
    ]

unfoldable pub finish_all_sessions : SessionManager → Sent
finish_all_sessions m = elim (finish_lists m.stream_sessions) [
  | none ↦ none
  | some sent ↦ some (sent, m)
]
