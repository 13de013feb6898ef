-- ===== src/Tests/Service.antt =====
-- The front end's users, requests and answers.
use re_mo_lon.Common.{
  ℕ, ◌≢◌, ◌≡◌, ◌⊎◌, refl, List, [], ◌∷◌, Option, none, some, Bool, true, false, arith,
  if◌then◌else◌,
}
use re_mo_lon.Common.Eq.{Text, c_str, text_eq, text_beq_iff, codes, ◌==◌}
use re_mo_lon.Common.Assoc
use re_mo_lon.FrontEnd.Packets.{
  ConnectionRef, ClientPacket, node_info, start_streaming_session_result, close_session_result,
}
use re_mo_lon.FrontEnd.User.{User}
use re_mo_lon.FrontEnd.UserManager.{
  System, Users, user_at, try_auth_user, log_out_user, get_user_by_name,
}
use re_mo_lon.FrontEnd.UserManager.LogIn.{Accepts, Keyed, try_auth_user_lem}
use re_mo_lon.FrontEnd.HttpActions.{Request, Response, Front, http_ok}
use re_mo_lon.FrontEnd.RequestManager.{web_handlers}
use re_mo_lon.FrontEnd.RequestManager
use re_mo_lon.FrontEnd.RequestManager.Isolation.{FrontInv, Isolated}
use re_mo_lon.FrontEnd.RequestManager.Handling.{handle_request-Isolated}
use re_mo_lon.FrontEnd.Answers.{execute_packet_action}
use re_mo_lon.FrontEnd.Answers.Effects.{
  session_of, updated_session, NamesLoggedIn, execute_packet_action_lem,
}
use re_mo_lon.FrontEnd.Service.{Event, requests, executes, reports, serve, serve-FrontInv}
use re_mo_lon.FrontEnd.Service.Reports.{FirstReport}
use re_mo_lon.FrontEnd.NodeManager.{get_node}
use re_mo_lon.Protocol.Report.{Ports, report_bytes}
use re_mo_lon.FrontEnd.SessionTracker.{running, crashed, new_session, start_packet, enter_session}
use re_mo_lon.Node.Packets as Node
use re_mo_lon.Node.SessionManager.{SessionManager, launch_ok}
use re_mo_lon.Node.SessionManager.Handlers.{handle_request}
use re_mo_lon.Protocol.Requests.{received}
use re_mo_lon.Protocol.Session.{shown, Serves, session_agrees}
use re_mo_lon.Tests.Node.{manager, manager-Inv}
use re_mo_lon.Tests.Data.{holding, ana, s1, user, node, nodes}
use re_mo_lon.Tests.FrontEnd.{tracker, tracker-Inv}

-- A system where PAM agrees to the password "s1" and knows every user.
abbrev system : System
system = record {
  pam_success = 0;
  pam_start = λ service name. 0;
  pam_authenticate = λ service name pwd. if pwd == s1 then 0 else 7;
  getpwnam = λ name. some (1000, 1000);
}

-- "10.0.0.9"
abbrev laptop : Text
laptop = codes "10.0.0.9"

abbrev users : Users
users = (laptop, record user { ip_address = laptop }) ∷ []

users-addressed : (j : Text) (v : User) → Assoc.find j users ≡ some v → v.ip_address ≡ j
unfolding Assoc.find
users-addressed j v e = ground (arith, e, text_beq_iff laptop j)

users-Keyed : Keyed users
users-Keyed = record { distinct = (tt, tt); addressed = users-addressed }

try_auth_user_lem_example :
    ((try_auth_user system laptop ana s1 [] ≡ (false, []))
      × ((¬ Accepts system ana s1) ⊎ (system.getpwnam (c_str ana) ≡ none)))
    ⊎ (Accepts system ana s1
        × (u : User) × (users' : Users) × (try_auth_user system laptop ana s1 [] ≡ (true, users'))
        × (system.getpwnam (c_str ana) ≡ some (u.user_id, u.group_id))
        × (u.unix_user ≡ ana)
        × (u.unix_pwd ≡ s1)
        × (u.ip_address ≡ laptop)
        × (u.active_sessions ≡ (user_at laptop []).active_sessions)
        × (Assoc.find laptop users' ≡ (if laptop == laptop then some u else Assoc.find laptop []))
        × ((log_out_user laptop users').0 ≡ true)
        × (Assoc.find laptop (log_out_user laptop users').1
            ≡ (if laptop == laptop then none else Assoc.find laptop [])))
try_auth_user_lem_example = try_auth_user_lem system laptop ana s1 [] laptop

abbrev front : Front
front = record { users = users; tracker = tracker }

front-FrontInv : FrontInv front
front-FrontInv = record { sessions = tracker-Inv; keyed = users-Keyed }

abbrev response : Response
response = record { status = http_ok; content_type = none; body = none }

-- A session named "s1" is asked for.
abbrev creation : Text → Request
creation address = record {
  client_address = address;
  uri = codes "/CreateSession";
  form = λ field. if field == codes "session_name" then some s1 else none;
}

handle_request-Isolated_example :
    Isolated laptop front
      (codes "bob")
      s1
      (RequestManager.handle_request web_handlers 1 system (creation laptop) response front)
handle_request-Isolated_example =
    handle_request-Isolated web_handlers 0 system (creation laptop) response front (codes "bob") s1
      front-FrontInv

-- A user asks for a session, and its node answers that it has started and later that it is closed.
abbrev started : ClientPacket
started = start_streaming_session_result (record { user_name = ana; session_name = s1; status = 0 })

abbrev closed : ClientPacket
closed = close_session_result (record { user_name = ana; session_name = s1; status = 0 })

-- Another node reports the ports 8001, in use, and 8002, from "10.0.0.5".
abbrev node_con : ConnectionRef
node_con = record { id = 6; client_address = codes "10.0.0.5" }

abbrev ports : Ports
ports = (8001, true) ∷ (8002, false) ∷ []

abbrev report : List ℕ
report = report_bytes (codes "10.0.0.5") ports

abbrev events : List Event
events =
    reports 7 7 node_con (holding report)
    ∷ requests system (creation laptop) response
    ∷ executes node_info
    ∷ executes started
    ∷ executes closed
    ∷ []

first : FirstReport node_con (holding report) front.tracker.nodes
unfolding get_node Assoc.find re_mo_lon.Common.Eq.text_beq
first = record {
  public_address = codes "10.0.0.5";
  ports = ports;
  rest = [];
  unknown = refl;
  distinct = ((refl, tt), (tt, tt));
  short = omega arith;
  few = omega arith;
  ints = (omega arith, (omega arith, tt));
  valid = record {
    owned = refl;
    read_le = omega arith;
    used_le = omega arith;
    small = omega arith;
  };
  holds = refl;
}

serve-FrontInv_example : FrontInv (serve web_handlers events front)
serve-FrontInv_example =
    serve-FrontInv web_handlers events front (first, (tt, (tt, (tt, (tt, tt))))) front-FrontInv

execute_packet_action_lem_example :
    ((¬ NamesLoggedIn started front.users) × (execute_packet_action started front ≡ front))
    ⊎ (NamesLoggedIn started front.users
        × (session_of ana s1 (execute_packet_action started front)
            ≡ updated_session started ana s1 (session_of ana s1 front)))
execute_packet_action_lem_example = execute_packet_action_lem started front ana s1 users-Keyed

-- The session is entered, and the front end waits for the node.
abbrev waiting : Front
waiting = record { users = users; tracker = (enter_session user s1 node 8001 nodes tracker).2 }

abbrev entry : Text × User
entry = (laptop, record user { ip_address = laptop })

logged_in : get_user_by_name ana users ≡ some entry
unfolding get_user_by_name re_mo_lon.Common.Eq.text_beq
logged_in = refl

session_agrees_example :
    (status : ℕ) × (manager' : SessionManager) × (handle_request true
        (received (start_packet user s1 8001))
        manager
      ≡ some (Node.start_streaming_session_result ana s1 status, [], manager'))
    × (((shown user s1 status waiting
            ≡ some (record (new_session user s1 node 8001) { status = running }))
          × Serves ana s1 8001 manager')
        ⊎ ((shown user s1 status waiting
              ≡ some (record (new_session user s1 node 8001) { status = crashed }))
            × (status ≢ launch_ok)))
session_agrees_example =
    session_agrees user s1 node 8001 tracker nodes waiting users-Keyed refl entry logged_in true
      manager (omega arith) manager-Inv
