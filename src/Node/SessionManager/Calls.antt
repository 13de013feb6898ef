-- ===== src/Node/SessionManager/Calls.antt =====
-- The calls on a session manager: what each does on every branch, and any sequence of them.
use re_mo_lon.Common.{
  ℕ, ◌≡◌, ◌≢◌, ◌⊎◌, inl, inr, none, some, Bool, true, false, arith, if◌then◌else◌, nat_beq,
  nat_beq_iff, Bool-cases, Option-cases,
}
use re_mo_lon.Common.Eq.{Text, nat_eq, text_eq}
use re_mo_lon.Common.Assoc.{find, assign, assign-Distinct}
use re_mo_lon.Node.SessionManager.{
  StreamingSession, SessionManager, new_session, with_list, find_available_port, with_ports_taken,
  enter_session, start_status, launch_ok, launch_crashed, launch_duplicate_name,
  launch_port_unavailable,
}
use re_mo_lon.Node.SessionManager.Sessions.{session_at, find-list_of}
use re_mo_lon.Node.SessionManager.Ports
use re_mo_lon.Node.SessionManager.Invariant.{
  Inv, IsFree, entered, entered-Inv, with_ports_taken-Inv, with_list-Inv, find_available_port-free,
}

abbrev pub sock_port : SessionManager → ℕ
sock_port m = (find_available_port m.used_sock_ports).0

abbrev pub rtc_port : SessionManager → ℕ
rtc_port m = (find_available_port m.used_rtc_ports).0

-- The session that a start makes.
abbrev pub made : Text → Text → Text → ℕ → SessionManager → StreamingSession
made owner address name port m = new_session name owner address port (sock_port m) (rtc_port m)

-- The manager after a start under a name that the owner has already.
abbrev pub duplicate : Text → ℕ → SessionManager → SessionManager
duplicate owner port m = record (with_ports_taken m) {
  used_ports = assign port true m.used_ports;
  stream_sessions = with_list owner m.stream_sessions;
}

module _ (launched : Bool) (owner address name : Text) (port : ℕ) (m : SessionManager) where
  abbrev new : StreamingSession
  new = made owner address name port m

  -- `startNewSession`, on each of its branches.
  pub data Started : ℕ → SessionManager → Type 0 where
    unavailable :
        (find port m.used_ports ≢ some false) ⊎ (sock_port m ≡ 0) ⊎ (rtc_port m ≡ 0)
        → Started launch_port_unavailable (with_ports_taken m)
    duplicate_name :
        (k : StreamingSession)
        → session_at owner name m.stream_sessions ≡ some k
        → IsFree new m
        → Started launch_duplicate_name (duplicate owner port m)
    started :
        session_at owner name m.stream_sessions ≡ none
        → IsFree new m
        → Started (if launched then launch_ok else launch_crashed) (entered new m)

  abbrev Result : ℕ × SessionManager → Type 0
  Result run = (status : ℕ) × (m' : SessionManager) × (run ≡ (status, m')) × Started status m'

  enter_session-Started :
      IsFree new m
      → (find_available_port m.used_sock_ports).1 ≡ assign (sock_port m) true m.used_sock_ports
      → (find_available_port m.used_rtc_ports).1 ≡ assign (rtc_port m) true m.used_rtc_ports
      → Result (
          enter_session launched owner address name port
            (sock_port m)
            (rtc_port m)
            (with_ports_taken m))
  unfolding enter_session
  enter_session-Started free es er =
      let at = find-list_of owner name m.stream_sessions in
      elim (Option-cases (session_at owner name m.stream_sessions)) [
        | inl e ↦ (_, _, rw (enter_session, at, e, es, er), started e free)
        | inr (k, e) ↦ (_, _, rw (enter_session, at, e), duplicate_name k e free)
      ]

  -- Under the invariant a start ends on one of three branches: the web port is not known and free,
  -- or no socket or RTC port is found, and only the found socket and RTC ports are taken; the
  -- owner has a session of that name, and the three free ports are taken; or there was no such
  -- session and the new one stands on three ports that were free, with the status that the launch
  -- gives.
  pub start_status-Started : Inv m → Result (start_status launched owner address name port m)
  unfolding start_status
  start_status-Started v = elim (Option-cases (find port m.used_ports)) [
    | inl e ↦ (_, _, rw (start_status, e), unavailable (inl (λ f. ground (arith, e, f))))
    | inr (true, e) ↦ (_, _, rw (start_status, e), unavailable (inl (λ f. ground (arith, e, f))))
    | inr (false, e) ↦ elim (Bool-cases (nat_beq (sock_port m) 0)) [
      | inl z ↦ (
        _,
        _,
        rw (start_status, e, z),
        unavailable (inr (inl (ground (arith, z, nat_beq_iff (sock_port m) 0)))),
      )
      | inr nz ↦ elim (Bool-cases (nat_beq (rtc_port m) 0)) [
        | inl y ↦ (
          _,
          _,
          rw (start_status, e, nz, y),
          unavailable (inr (inr (ground (arith, y, nat_beq_iff (rtc_port m) 0)))),
        )
        | inr ny ↦
            let (fs, es) =
              find_available_port-free m.used_sock_ports v.sock_keyed
                (λ z. ground (arith, nz, z, nat_beq_iff (sock_port m) 0)) in
            let (fr, er) =
              find_available_port-free m.used_rtc_ports v.rtc_keyed
                (λ z. ground (arith, ny, z, nat_beq_iff (rtc_port m) 0)) in
            let (status, m', p, h) =
              enter_session-Started (record { port = e; sock_port = fs; rtc_port = fr }) es er in
            (status, m', rw (start_status, e, nz, ny, p), h)
      ]
    ]
  ]

pub Started-Inv :
    (launched : Bool) (owner address name : Text) (port status : ℕ) (m m' : SessionManager)
    → Started launched owner address name port m status m'
    → Inv m
    → Inv m'
Started-Inv launched owner address name port _ m _ (unavailable why) v = with_ports_taken-Inv m v
Started-Inv launched owner address name port _ m _ (duplicate_name k e free) v =
    marked-Inv port (with_ports_taken m) owner (with_ports_taken-Inv m v)
  where
    marked-Inv :
        (port : ℕ) (m : SessionManager) (owner : Text)
        → Inv m
        → Inv (record m {
          used_ports = assign port true m.used_ports;
          stream_sessions = with_list owner m.stream_sessions;
        })
    marked-Inv port m owner v =
        with_list-Inv owner (record m { used_ports = assign port true m.used_ports })
          (record {
            ports = Ports.mark-Taken _ _ _ v.ports port;
            sock_ports = v.sock_ports;
            rtc_ports = v.rtc_ports;
            named = v.named;
            keyed = assign-Distinct port true m.used_ports v.keyed;
            sock_keyed = v.sock_keyed;
            rtc_keyed = v.rtc_keyed;
          })
Started-Inv launched owner address name port _ m _ (started none_there free) v =
    entered-Inv (made owner address name port m) m free v
