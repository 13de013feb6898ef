-- ===== src/Node/SessionManager/Steps.antt =====
-- Any sequence of calls on a session manager, and of ends of its sessions' processes.
use re_mo_lon.Common.{
  ℕ, ◌≡◌, refl, sym, ap, subst, ◌∙◌, inl, inr, List, some, Bool, arith, Option-cases,
}
use re_mo_lon.Common.Eq.{Text, nat_eq, text_eq}
use re_mo_lon.Node.Packets.{RemotooRequest, RemotooAnswer, session_info, allow_address_answer}
use re_mo_lon.Node.SessionManager.Handlers.{handle_answer}
use re_mo_lon.Node.SessionManager.{
  StreamingSession, SessionManager, set_connection, put_session, start_new_session, finish_session,
  get_stream_session, clear_session,
}
use re_mo_lon.Node.SessionManager.Sessions.{session_at, find-list_of, session_at-with_list}
use re_mo_lon.Node.SessionManager.Ports
use re_mo_lon.Node.SessionManager.Invariant.{
  Named, put-Named, Inv, with_list-Inv, clear_session-Inv,
}
use re_mo_lon.Node.SessionManager.Calls.{start_status-Started, Started-Inv}

-- `getStreamSession` finds what is there and changes no session.
pub get_stream_session-Inv :
    (owner name : Text) (m : SessionManager)
    → Inv m
    → ((get_stream_session owner name m).0 ≡ session_at owner name m.stream_sessions)
      × ((u n : Text)
          → session_at u n (get_stream_session owner name m).1.stream_sessions
            ≡ session_at u n m.stream_sessions)
      × Inv (get_stream_session owner name m).1
unfolding get_stream_session
get_stream_session-Inv owner name m v = (
  find-list_of owner name m.stream_sessions,
  session_at-with_list owner m.stream_sessions,
  with_list-Inv owner m v,
)

set_connection-Inv :
    (con : ℕ) (s : StreamingSession) (owner name : Text) (m : SessionManager)
    → session_at owner name m.stream_sessions ≡ some s
    → Inv m
    → Inv (record m {
      stream_sessions = put_session (set_connection con s) owner name m.stream_sessions;
    })
set_connection-Inv con s owner name m e v = record {
  ports = Ports.update-Taken _ _ _ v.ports s (set_connection con s) owner name e refl;
  sock_ports = Ports.update-Taken _ _ _ v.sock_ports s (set_connection con s) owner name e refl;
  rtc_ports = Ports.update-Taken _ _ _ v.rtc_ports s (set_connection con s) owner name e refl;
  named =
      let (eo, en) = v.named owner name s e in
      subst (λ o. Named (put_session (set_connection con s) o name m.stream_sessions)) eo
        (subst (λ n. Named (put_session (set_connection con s) s.session_owner n m.stream_sessions))
          en (put-Named (set_connection con s) m.stream_sessions v.named));
  keyed = v.keyed;
  sock_keyed = v.sock_keyed;
  rtc_keyed = v.rtc_keyed;
}

pub handle_answer-Inv :
    (con : ℕ) (owner name : Text) (m : SessionManager)
    → Inv m
    → Inv (handle_answer con (session_info name owner) m)
unfolding handle_answer
handle_answer-Inv con owner name m v =
    let (found, same, w) = get_stream_session-Inv owner name m v in
    elim (Option-cases (get_stream_session owner name m).0) [
      | inl e ↦ rw (handle_answer, e) w
      | inr (s, e) ↦
          rw (handle_answer, e)
            (set_connection-Inv con s owner name _ (same owner name ∙ (sym found ∙ e)) w)
    ]

-- What can happen to a session manager: a call from the front end or a streaming process, and the
-- end of the process of a session.
pub data Step : SessionManager → SessionManager → Type 0 where
  starts :
      (launched : Bool) (owner address name : Text) (port : ℕ) {m : SessionManager}
      → Step m (start_new_session launched owner address name port m).1
  finishes :
      (owner name : Text) {m m' : SessionManager} {sent : List (ℕ × RemotooRequest)}
      → finish_session owner name m ≡ some (sent, m')
      → Step m m'
  connects :
      (con : ℕ) (answer : RemotooAnswer) {m : SessionManager} → Step m (handle_answer con answer m)
  ends :
      (s : StreamingSession) {m : SessionManager}
      → session_at s.session_owner s.session_name m.stream_sessions ≡ some s
      → Step m (clear_session s m)

pub data Reaches : SessionManager → SessionManager → Type 0 where
  here : {m : SessionManager} → Reaches m m
  after : {m m' m'' : SessionManager} → Step m m' → Reaches m' m'' → Reaches m m''

finish_session-Inv :
    (owner name : Text) (m m' : SessionManager) (sent : List (ℕ × RemotooRequest))
    → finish_session owner name m ≡ some (sent, m')
    → Inv m
    → Inv m'
unfolding finish_session
finish_session-Inv owner name m m' sent e v =
    let (_, _, w) = get_stream_session-Inv owner name m v in
    let same : (get_stream_session owner name m).1 ≡ m' = ground arith in subst Inv same w

pub Step-Inv : {m m' : SessionManager} → Step m m' → Inv m → Inv m'
unfolding start_new_session handle_answer
Step-Inv {m = m} (starts launched owner address name port) v =
    let (status, m', e, h) = start_status-Started launched owner address name port m v in
    subst Inv (sym (ap (λ r. r.1) e)) (Started-Inv launched owner address name port status m m' h v)
Step-Inv {m = m} {m' = m'} (finishes owner name {sent = sent} e) v =
    finish_session-Inv owner name m m' sent e v
Step-Inv {m = m} (connects con (session_info name owner)) v = handle_answer-Inv con owner name m v
Step-Inv (connects con (allow_address_answer address allowed)) v = v
Step-Inv {m = m} (ends k e) v = clear_session-Inv k m e v

-- Whatever sequence of starts, closes, connections of streaming processes and ends of sessions'
-- processes takes a node's session manager from one state to another, the invariant is kept: each
-- session stands under its own names, its web, socket and RTC ports are in use, and no two
-- sessions share a port of one kind.
pub Reaches-Inv : {m m' : SessionManager} → Reaches m m' → Inv m → Inv m'
Reaches-Inv here v = v
Reaches-Inv (after d r) v = Reaches-Inv r (Step-Inv d v)
