-- ===== src/Node/SessionManager/Ends.antt =====
-- What a start leaves behind: until its session ends, or for good.
use re_mo_lon.Common.{
  ℕ, ◌≡◌, ◌≢◌, ap, ◌∙◌, inl, inr, [], ◌∷◌, none, some, Bool, true, false, ◌&&◌, arith,
  if◌then◌else◌, Option-cases,
}
use re_mo_lon.Common.Eq.{Text, nat_eq, text_eq, ◌==◌}
use re_mo_lon.Common.Assoc.{find, find-assign_self}
use re_mo_lon.Node.Packets.{request_finish_session}
use re_mo_lon.Node.SessionManager.{
  StreamingSession, SessionManager, find_available_port, start_status, launch_port_unavailable,
  with_ports_taken, finish_session, get_stream_session, clear_session,
}
use re_mo_lon.Node.SessionManager.Sessions.{session_at, session_at-erase, find-list_of}
use re_mo_lon.Node.SessionManager.Invariant.{Inv, find_available_port-free}
use re_mo_lon.Node.SessionManager.Calls.{sock_port}

-- The end of a session's process makes its web, socket and RTC ports free, takes out the session
-- of that owner and name, and changes no other session.
pub clear_session_lem :
    (s : StreamingSession) (m : SessionManager)
    → (find s.session_port (clear_session s m).used_ports ≡ some false)
      × (find s.session_sock_port (clear_session s m).used_sock_ports ≡ some false)
      × (find s.session_rtc_port (clear_session s m).used_rtc_ports ≡ some false)
      × ((o n : Text)
          → session_at o n (clear_session s m).stream_sessions ≡ (
              if (s.session_owner == o) && (s.session_name == n)
              then none
              else session_at o n m.stream_sessions))
unfolding clear_session
clear_session_lem s m = (
  find-assign_self s.session_port false m.used_ports,
  find-assign_self s.session_sock_port false m.used_sock_ports,
  find-assign_self s.session_rtc_port false m.used_rtc_ports,
  session_at-erase s.session_owner s.session_name m.stream_sessions,
)

refused_start :
    (launched : Bool) (owner address name : Text) (port : ℕ) (m : SessionManager)
    → find port m.used_ports ≢ some false
    → start_status launched owner address name port m
      ≡ (launch_port_unavailable, with_ports_taken m)
unfolding start_status
refused_start launched owner address name port m busy =
    elim (Option-cases (find port m.used_ports)) [
      | inl e ↦ rw (start_status, e)
      | inr (true, e) ↦ rw (start_status, e)
      | inr (false, e) ↦ absurd (busy e)
    ]

-- Under the invariant, a start on a web port that is not known and free, where a socket port is
-- found, leaves that socket port in use though it was free and no session has it.
pub refused_start_leaks :
    (launched : Bool) (owner address name : Text) (port : ℕ) (m : SessionManager)
    → Inv m
    → find port m.used_ports ≢ some false
    → sock_port m ≢ 0
    → (let m' = (start_status launched owner address name port m).1 in
        (find (sock_port m) m.used_sock_ports ≡ some false)
        × (find (sock_port m) m'.used_sock_ports ≡ some true)
        × ((o n : Text) (s : StreamingSession)
            → session_at o n m'.stream_sessions ≡ some s
            → s.session_sock_port ≢ sock_port m))
refused_start_leaks launched owner address name port m v busy there =
    let (free, taken) = find_available_port-free m.used_sock_ports v.sock_keyed there in
    let p = sock_port m in
    let now : find p (find_available_port m.used_sock_ports).1 ≡ some true =
      ap (find p) taken ∙ find-assign_self p true m.used_sock_ports in
    let nobody : (o n : Text) (s : StreamingSession)
        → session_at o n m.stream_sessions ≡ some s
        → s.session_sock_port ≢ p =
      λ o n s e q.
        ground (arith, v.sock_ports.held o n s e, ap (λ k. find k m.used_sock_ports) q, free) in
    rw (refused_start launched owner address name port m busy) (free, now, nobody)

-- A close of a session whose streaming process has connected sends that process a request to
-- finish, and nothing else.
pub finish_session-sends :
    (owner name : Text) (s : StreamingSession) (con : ℕ) (m : SessionManager)
    → session_at owner name m.stream_sessions ≡ some s
    → s.connection ≡ some con
    → finish_session owner name m
      ≡ some ((con, request_finish_session) ∷ [], (get_stream_session owner name m).1)
unfolding finish_session get_stream_session
finish_session-sends owner name s con m e c =
    ground (arith, find-list_of owner name m.stream_sessions)
