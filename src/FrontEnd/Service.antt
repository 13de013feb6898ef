-- ===== src/FrontEnd/Service.antt =====
-- The front end as a whole: the requests of the web clients, the answers of the nodes and the reports
-- of nodes that join, each in one step and in any order, over the users, sessions and nodes that they
-- share.
pub mod Reports
use re_mo_lon.Common.{ℕ, some, ◌≡◌, ◌∙◌, inl, inr, List, [], ◌∷◌, arith, Option-cases}
use re_mo_lon.Common.Eq.{Text, text_eq}
use re_mo_lon.Common.Outcome.{ok, throws, fault}
use re_mo_lon.Util.ByteBuffer.{ByteBuffer}
use re_mo_lon.FrontEnd.NodeManager.{NodeManager}
use re_mo_lon.FrontEnd.NodeInfo.{read_node_info}
use re_mo_lon.FrontEnd.Service.Reports.{FirstReport, joined-Inv}
use re_mo_lon.Protocol.Registration.{read_node_info_lem}
use re_mo_lon.FrontEnd.User.{User, remove_session}
use re_mo_lon.FrontEnd.UserManager.{System, get_user_by_name}
use re_mo_lon.FrontEnd.UserManager.LogIn.{assign-Keyed, get_user_by_name_lem}
use re_mo_lon.FrontEnd.Packets.{
  ConnectionRef, ClientPacket, node_info, start_streaming_session_result, close_session_result,
  SessionResult,
}
use re_mo_lon.FrontEnd.SessionTracker.{Tracker, finish_session}
use re_mo_lon.FrontEnd.SessionTracker.Calls.{
  Within-Inv, create_session-nodes, create_session-Within, finish_session-nodes,
  finish_session-Within,
}
use re_mo_lon.FrontEnd.HttpActions.{Request, Response, Front, Reply, returned}
use re_mo_lon.FrontEnd.RequestManager.{Handlers, handle_request}
use re_mo_lon.FrontEnd.RequestManager.Isolation.{FrontInv}
use re_mo_lon.FrontEnd.RequestManager.Handling.{handle_request-Isolated}
use re_mo_lon.FrontEnd.Answers.{execute_packet_action, execute_start_result, execute_close_result}

-- `requests` holds what PAM and the user database answer at that time. `reports` is a `NodeInfo` that
-- is read from a buffer; its action, later, does nothing.
pub data Event : Type 0 where
  requests : System → Request → Response → Event
  executes : ClientPacket → Event
  reports : ℕ → ℕ → ConnectionRef → ByteBuffer → Event

abbrev pub after : Front → Reply → Front
after f (returned r f') = f'
after f _ = f

abbrev pub with_nodes : NodeManager → Front → Front
with_nodes m f = record f { tracker = record f.tracker { nodes = m } }

unfoldable pub serve_one : Handlers → Event → Front → Front
serve_one handlers (requests sys request response) f =
    after f (handle_request handlers 1 sys request response f)
serve_one handlers (executes packet) f = execute_packet_action packet f
-- What `readImpl` has done to the nodes stays, when it throws too.
serve_one handlers (reports junk_total junk_used con b) f =
    elim (read_node_info junk_total junk_used con (f.tracker.nodes, some b)) [
      | ok _ (m, _) ↦ with_nodes m f
      | throws _ (m, _) ↦ with_nodes m f
      | fault ↦ f
    ]

unfoldable pub serve : Handlers → List Event → Front → Front
serve handlers [] f = f
serve handlers (e ∷ events) f = serve handlers events (serve_one handlers e f)

-- A report is the first of its node.
abbrev pub IsAdmitted : Event → Front → Type 0
IsAdmitted (requests sys request response) f = Unit {0}
IsAdmitted (executes packet) f = Unit {0}
IsAdmitted (reports junk_total junk_used con b) f = FirstReport con b f.tracker.nodes

-- Each event, at the time it comes.
abbrev pub AllAdmitted : Handlers → List Event → Front → Type 0
AllAdmitted handlers [] f = Unit {0}
AllAdmitted handlers (e ∷ events) f =
    IsAdmitted e f × AllAdmitted handlers events (serve_one handlers e f)

execute_start_result-FrontInv :
    (p : SessionResult) (f : Front) → FrontInv f → FrontInv (execute_start_result p f)
unfolding execute_start_result
execute_start_result-FrontInv p f h = elim (Option-cases (get_user_by_name p.user_name f.users)) [
  | inl e ↦ rw (execute_start_result, e) h
  | inr ((ip, usr), e) ↦
      rw (execute_start_result, e)
        (record {
          sessions =
              Within-Inv f.tracker _ (create_session-nodes usr p.session_name p.status f.tracker)
                (create_session-Within usr p.session_name p.status f.tracker) h.sessions;
          keyed = h.keyed;
        })
]

finished-address :
    (usr : User) (name : Text) (t : Tracker)
    → (finish_session usr name t).0.ip_address ≡ usr.ip_address
unfolding finish_session remove_session
finished-address usr name t = ground arith

execute_close_result-FrontInv :
    (p : SessionResult) (f : Front) → FrontInv f → FrontInv (execute_close_result p f)
unfolding execute_close_result
execute_close_result-FrontInv p f h = elim (Option-cases (get_user_by_name p.user_name f.users)) [
  | inl e ↦ rw (execute_close_result, e) h
  | inr ((ip, usr), e) ↦
      let (there, _) = get_user_by_name_lem p.user_name ip usr f.users h.keyed.distinct e in
      let t = f.tracker in
      rw (execute_close_result, e)
        (record {
          sessions =
              Within-Inv t _ (finish_session-nodes usr p.session_name t)
                (finish_session-Within usr p.session_name t) h.sessions;
          keyed =
              assign-Keyed ip (finish_session usr p.session_name t).0 f.users
                (finished-address usr p.session_name t ∙ h.keyed.addressed ip usr there) h.keyed;
        })
]

-- Every step keeps the invariant.
serve_one-FrontInv :
    (handlers : Handlers) (e : Event) (f : Front)
    → IsAdmitted e f
    → FrontInv f
    → FrontInv (serve_one handlers e f)
unfolding serve_one execute_packet_action
serve_one-FrontInv handlers (requests sys request response) f _ h =
    let (r, f', answers, h', _) =
      handle_request-Isolated handlers 0 sys request response f [] [] h in
    rw (serve_one, answers) h'
serve_one-FrontInv handlers (executes node_info) f _ h = h
serve_one-FrontInv handlers (executes (start_streaming_session_result p)) f _ h =
    execute_start_result-FrontInv p f h
serve_one-FrontInv handlers (executes (close_session_result p)) f _ h =
    execute_close_result-FrontInv p f h
serve_one-FrontInv handlers (reports junk_total junk_used con b) f first h =
    let (b', read, _, _) =
      read_node_info_lem junk_total junk_used con f.tracker.nodes first.public_address first.ports b
        first.rest first.short first.few first.ints first.valid first.holds in
    rw (serve_one, read)
      (record {
        sessions = joined-Inv junk_total junk_used con b f.tracker first h.sessions;
        keyed = h.keyed;
      })

-- Any sequence of requests of web clients, of answers of nodes to the requests that start or close
-- a session, and of first reports of nodes, each in one step, keeps the invariant of the front
-- end: that of the sessions, by which no two of them share a port of a node and the port of each
-- is in use there, and that no address stands twice among the users and every user stands under
-- its own address. A first report is one of an address that the front end does not know at that
-- time, and names different ports.
pub serve-FrontInv :
    (handlers : Handlers) (events : List Event) (f : Front)
    → AllAdmitted handlers events f
    → FrontInv f
    → FrontInv (serve handlers events f)
unfolding serve
serve-FrontInv handlers [] f _ h = h
serve-FrontInv handlers (e ∷ events) f (admitted, later) h =
    serve-FrontInv handlers events (serve_one handlers e f) later
      (serve_one-FrontInv handlers e f admitted h)
