-- ===== src/Tests/Node.antt =====
-- The session manager of a node.
use re_mo_lon.Common.{ℕ, ◌≡◌, ◌≢◌, [], ◌∷◌, true, false, none, some, arith, if◌then◌else◌, ◌&&◌}
use re_mo_lon.Common.Eq.{Text, text_eq, nat_eq, ◌==◌}
use re_mo_lon.Common.Assoc.{find}
use re_mo_lon.Node.Packets.{session_info}
use re_mo_lon.Node.SessionManager.Handlers.{handle_answer}
use re_mo_lon.Node.SessionManager.{
  StreamingSession, SessionManager, new_session, start_status, start_new_session, clear_session,
  find_available_port,
}
use re_mo_lon.Node.SessionManager.Sessions.{session_at}
use re_mo_lon.Node.SessionManager.Invariant.{Inv}
use re_mo_lon.Node.SessionManager.Calls.{Started, start_status-Started, sock_port}
use re_mo_lon.Node.SessionManager.Steps.{starts, connects, here, after, Reaches-Inv}
use re_mo_lon.Node.SessionManager.Ends.{clear_session_lem, refused_start_leaks}
use re_mo_lon.Tests.Data.{ana, s1}

-- One port of each kind, free.
abbrev pub manager : SessionManager
manager = record {
  public_address = [];
  used_ports = (8001, false) ∷ [];
  used_sock_ports = (9001, false) ∷ [];
  used_rtc_ports = (9501, false) ∷ [];
  stream_sessions = [];
}

pub manager-Inv : Inv manager
unfolding session_at find
manager-Inv = record {
  ports = record { held = λ o n s e. cc; alone = λ o n o' n' s s' e e' p. cc };
  sock_ports = record { held = λ o n s e. cc; alone = λ o n o' n' s s' e e' p. cc };
  rtc_ports = record { held = λ o n s e. cc; alone = λ o n o' n' s s' e e' p. cc };
  named = λ o n s e. cc;
  keyed = (tt, tt);
  sock_keyed = (tt, tt);
  rtc_keyed = (tt, tt);
}

start_status-Started_example :
    (status : ℕ) × (m' : SessionManager) × (start_status true ana [] s1 8001 manager ≡ (status, m'))
    × Started true ana [] s1 8001 manager status m'
start_status-Started_example = start_status-Started true ana [] s1 8001 manager manager-Inv

-- A session starts, and its process connects.
abbrev later : SessionManager
later = handle_answer 4 (session_info s1 ana) (start_new_session true ana [] s1 8001 manager).1

Reaches-Inv_example : Inv later
Reaches-Inv_example =
    Reaches-Inv (after (starts true ana [] s1 8001) (after (connects 4 (session_info s1 ana)) here))
      manager-Inv

abbrev session : StreamingSession
session = record (new_session s1 ana [] 8001 9001 9501) { connection = some 4 }

abbrev serving : SessionManager
serving = record {
  public_address = [];
  used_ports = (8001, true) ∷ [];
  used_sock_ports = (9001, true) ∷ [];
  used_rtc_ports = (9501, true) ∷ [];
  stream_sessions = (ana, (s1, session) ∷ []) ∷ [];
}

clear_session_lem_example :
    (find 8001 (clear_session session serving).used_ports ≡ some false)
    × (find 9001 (clear_session session serving).used_sock_ports ≡ some false)
    × (find 9501 (clear_session session serving).used_rtc_ports ≡ some false)
    × ((o n : Text)
        → session_at o n (clear_session session serving).stream_sessions
          ≡ (if (ana == o) && (s1 == n) then none else session_at o n serving.stream_sessions))
clear_session_lem_example = clear_session_lem session serving

refused_start_leaks_example :
    (find (sock_port manager) manager.used_sock_ports ≡ some false)
    × (find (sock_port manager) (start_status true ana [] s1 8005 manager).1.used_sock_ports
        ≡ some true)
    × ((o n : Text) (s : StreamingSession)
        → session_at o n (start_status true ana [] s1 8005 manager).1.stream_sessions ≡ some s
        → s.session_sock_port ≢ sock_port manager)
unfolding find find_available_port
refused_start_leaks_example =
    refused_start_leaks true ana [] s1 8005 manager manager-Inv (λ e. cc) (λ e. omega arith)
