-- ===== src/Node/SessionManager/Invariant.antt =====
-- What holds of a session manager between calls: a session's three ports are its own.
use re_mo_lon.Common.{ℕ, ◌≡◌, ◌≢◌, refl, sym, ap, ◌∙◌, ◌⊎◌, inl, inr, some, true, false, arith}
use re_mo_lon.Common.Eq.{Text, nat_eq, text_eq, text_beq_iff}
use re_mo_lon.Common.Assoc.{find, assign, Distinct, assign-Distinct}
use re_mo_lon.Node.SessionManager.{
  StreamingSession, SessionManager, SessionLists, PortTable, with_list, put_session,
  find_available_port, with_ports_taken, clear_session,
}
use re_mo_lon.Node.SessionManager.Sessions.{
  session_at, session_at-with_list, session_at-put, session_at-erase,
}
use re_mo_lon.Node.SessionManager.Ports.{Taken, find_available_port-cases}
use re_mo_lon.Node.SessionManager.Ports

-- A session stands under its own names.
abbrev pub Named : SessionLists → Type 0
Named lists =
    (o n : Text) (s : StreamingSession)
    → session_at o n lists ≡ some s
    → (s.session_owner ≡ o) × (s.session_name ≡ n)

pub record Inv (m : SessionManager) : Type 0 where
  pub ports : Taken (λ s. s.session_port) m.used_ports m.stream_sessions
  pub sock_ports : Taken (λ s. s.session_sock_port) m.used_sock_ports m.stream_sessions
  pub rtc_ports : Taken (λ s. s.session_rtc_port) m.used_rtc_ports m.stream_sessions
  pub named : Named m.stream_sessions
  pub keyed : Distinct m.used_ports
  pub sock_keyed : Distinct m.used_sock_ports
  pub rtc_keyed : Distinct m.used_rtc_ports

-- How `find_available_port` leaves a table: one port more in use, if there was one.
find_available_port-Taken :
    (port : StreamingSession → ℕ) (table : PortTable) (lists : SessionLists)
    → Distinct table
    → Taken port table lists
    → Taken port (find_available_port table).1 lists
find_available_port-Taken port table lists d t = elim (find_available_port-cases table d) [
  | inl e ↦ rw e t
  | inr (p, e, free) ↦ rw e (Ports.mark-Taken port table lists t p)
]

find_available_port-Distinct :
    (table : PortTable) → Distinct table → Distinct (find_available_port table).1
find_available_port-Distinct table d = elim (find_available_port-cases table d) [
  | inl e ↦ rw e d
  | inr (p, e, free) ↦ rw e (assign-Distinct p true table d)
]

-- A port other than 0 that `find_available_port` gives was free, and is marked.
pub find_available_port-free :
    (table : PortTable)
    → Distinct table
    → (find_available_port table).0 ≢ 0
    → (find (find_available_port table).0 table ≡ some false)
      × ((find_available_port table).1 ≡ assign (find_available_port table).0 true table)
find_available_port-free table d ne = elim (find_available_port-cases table d) [
  | inl e ↦ absurd (ne (ap (λ r. r.0) e))
  | inr (p, e, free) ↦ rw e (free, refl)
]

pub with_ports_taken-Inv : (m : SessionManager) → Inv m → Inv (with_ports_taken m)
with_ports_taken-Inv m v = record {
  ports = v.ports;
  sock_ports = find_available_port-Taken _ m.used_sock_ports _ v.sock_keyed v.sock_ports;
  rtc_ports = find_available_port-Taken _ m.used_rtc_ports _ v.rtc_keyed v.rtc_ports;
  named = v.named;
  keyed = v.keyed;
  sock_keyed = find_available_port-Distinct m.used_sock_ports v.sock_keyed;
  rtc_keyed = find_available_port-Distinct m.used_rtc_ports v.rtc_keyed;
}

-- Making an empty list of an owner's sessions changes no session.
pub with_list-Inv :
    (o : Text) (m : SessionManager)
    → Inv m
    → Inv (record m { stream_sessions = with_list o m.stream_sessions })
with_list-Inv o m v =
    let same = session_at-with_list o m.stream_sessions in
    record {
      ports = Ports.same-Taken _ _ _ v.ports _ same;
      sock_ports = Ports.same-Taken _ _ _ v.sock_ports _ same;
      rtc_ports = Ports.same-Taken _ _ _ v.rtc_ports _ same;
      named = λ u n s e. v.named u n s (sym (same u n) ∙ e);
      keyed = v.keyed;
      sock_keyed = v.sock_keyed;
      rtc_keyed = v.rtc_keyed;
    }

pub put-Named :
    (s : StreamingSession) (lists : SessionLists)
    → Named lists
    → Named (put_session s s.session_owner s.session_name lists)
put-Named s lists h o n k e = elim (enters o n k e) [
  | inl (eo, en, same) ↦
      (sym (ap (λ j. j.session_owner) same) ∙ eo, sym (ap (λ j. j.session_name) same) ∙ en)
  | inr old ↦ h o n k old
]
  where
    enters :
        (o n : Text) (k : StreamingSession)
        → session_at o n (put_session s s.session_owner s.session_name lists) ≡ some k
        → ((s.session_owner ≡ o) × (s.session_name ≡ n) × (s ≡ k)) ⊎ (session_at o n lists ≡ some k)
    enters o n k e = ground (
      arith,
      session_at-put s s.session_owner s.session_name lists o n,
      text_beq_iff s.session_owner o,
      text_beq_iff s.session_name n,
    )

-- The manager with a new session on three ports that were free.
abbrev pub entered : StreamingSession → SessionManager → SessionManager
entered s m = record m {
  used_ports = assign s.session_port true m.used_ports;
  used_sock_ports = assign s.session_sock_port true m.used_sock_ports;
  used_rtc_ports = assign s.session_rtc_port true m.used_rtc_ports;
  stream_sessions = put_session s s.session_owner s.session_name m.stream_sessions;
}

pub record IsFree (s : StreamingSession) (m : SessionManager) : Type 0 where
  pub port : find s.session_port m.used_ports ≡ some false
  pub sock_port : find s.session_sock_port m.used_sock_ports ≡ some false
  pub rtc_port : find s.session_rtc_port m.used_rtc_ports ≡ some false

pub entered-Inv :
    (s : StreamingSession) (m : SessionManager) → IsFree s m → Inv m → Inv (entered s m)
entered-Inv s m f v = record {
  ports = Ports.enter-Taken _ _ _ v.ports s s.session_owner s.session_name f.port;
  sock_ports = Ports.enter-Taken _ _ _ v.sock_ports s s.session_owner s.session_name f.sock_port;
  rtc_ports = Ports.enter-Taken _ _ _ v.rtc_ports s s.session_owner s.session_name f.rtc_port;
  named = put-Named s m.stream_sessions v.named;
  keyed = assign-Distinct s.session_port true m.used_ports v.keyed;
  sock_keyed = assign-Distinct s.session_sock_port true m.used_sock_ports v.sock_keyed;
  rtc_keyed = assign-Distinct s.session_rtc_port true m.used_rtc_ports v.rtc_keyed;
}

pub clear_session-Inv :
    (s : StreamingSession) (m : SessionManager)
    → session_at s.session_owner s.session_name m.stream_sessions ≡ some s
    → Inv m
    → Inv (clear_session s m)
unfolding clear_session
clear_session-Inv s m e v = record {
  ports = Ports.clear-Taken _ _ _ v.ports s s.session_owner s.session_name e;
  sock_ports = Ports.clear-Taken _ _ _ v.sock_ports s s.session_owner s.session_name e;
  rtc_ports = Ports.clear-Taken _ _ _ v.rtc_ports s s.session_owner s.session_name e;
  named = λ o n k f.
      v.named o n k
        (ground (arith, session_at-erase s.session_owner s.session_name m.stream_sessions o n));
  keyed = assign-Distinct s.session_port false m.used_ports v.keyed;
  sock_keyed = assign-Distinct s.session_sock_port false m.used_sock_ports v.sock_keyed;
  rtc_keyed = assign-Distinct s.session_rtc_port false m.used_rtc_ports v.rtc_keyed;
}
