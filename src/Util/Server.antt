-- ===== src/Util/Server.antt =====
-- ReMoLON_Util/Server.h and ReMoLON_Util/src/Server.cpp: the connections that a server accepts, and
-- the choice of the selector thread that gets each. A selector thread is its set of connections here.
-- `bind` stands for the listening socket of Poco: whether it can be bound to the address and port. What
-- `acceptConnection` gives is a list of events.
pub mod Load
pub mod Accepting
use re_mo_lon.Common.{
  ℕ, zero, suc, ◌+◌, ◌≤◌, ◌<◌, ◌≡◌, refl, ap, ◌∙◌, ◌⊎◌, inl, inr, List, [], ◌∷◌, ◌++◌, Option, none,
  some, Bool, true, false, ltb, if◌then◌else◌, arith, Bool-cases, ltb→lt, ltb→le,
}
use re_mo_lon.Common.Eq.{Text}
use re_mo_lon.Common.Outcome.{ok, throws, Run, socket_error}
use re_mo_lon.Util.ThreadPool
use re_mo_lon.Util.ThreadPool.{ThreadPool}
use re_mo_lon.Util.Connection.{Connection}
use re_mo_lon.Util.SelectorThread.{Connections, get_num_connections, add_connection}

-- The loop over the workers, from position `i`: the position of the least loaded one so far, and its
-- load.
unfoldable pub less_loaded : ℕ → Option ℕ → ℕ → List Connections → Option ℕ
less_loaded i best less_load [] = best
less_loaded i best less_load (worker ∷ workers) =
    let worker_load = get_num_connections worker in
    let taken = less_loaded (i + 1) (some i) worker_load workers in
    let passed = less_loaded (i + 1) best less_load workers in
    if ltb worker_load less_load then taken else passed

abbrev pub add_at : ℕ → Connection → List Connections → List Connections
add_at i c [] = []
add_at zero c (worker ∷ workers) = (add_connection c worker).1 ∷ workers
add_at (suc i) c (worker ∷ workers) = worker ∷ add_at i c workers

-- Without a worker below the first load the connection is dropped.
unfoldable pub assign_connection_to_worker : Connection → List Connections → List Connections
assign_connection_to_worker c workers = elim (less_loaded 0 none 999999 workers) [
  | none ↦ workers
  | some i ↦ add_at i c workers
]

-- A connection for a socket that was accepted, which both kinds of server make.
abbrev pub create_new_connection : ℕ → Connection
create_new_connection fd = record {
  sock_fd = fd;
  send_packets = [];
  polled = false;
  wants_write = false;
  is_open = true;
}

-- What happens while the loop waits: a socket is accepted, the accept throws, or another thread shuts
-- the server down.
pub data AcceptEvent : Type 0 where
  accepts : ℕ → AcceptEvent
  fails : AcceptEvent
  shuts_down : AcceptEvent

-- `worker_flags` are the flags of the selector threads, one for each.
pub record Server (P : Type 0) : Type 0 where
  pub bind_ip_address : Text
  pub bind_port : ℕ
  pub active : Bool
  pub blocking : Bool
  pub selector_workers : List Connections
  pub worker_flags : List Bool
  pub packet_thread_pool : ThreadPool P

abbrev pub all_off : List Bool → List Bool
all_off [] = []
all_off (flag ∷ flags) = false ∷ all_off flags

module _ {P : Type 0} where
  -- The constructor, at the time `now`. Two of the fields it leaves as they are in memory.
  unfoldable pub new_server : ℕ → Bool → Bool → Text → ℕ → Server P
  new_server now junk_active junk_blocking address port = record {
    bind_ip_address = address;
    bind_port = port;
    active = junk_active;
    blocking = junk_blocking;
    selector_workers = [];
    worker_flags = [];
    packet_thread_pool = ThreadPool.default_thread_pool now;
  }

  abbrev pub marked : Bool → Server P → Server P
  marked blocking s = record s { active = true; blocking = blocking }

  abbrev pub with_selector : Server P → Server P
  with_selector s = record s {
    selector_workers = s.selector_workers ++ ([] ∷ []);
    worker_flags = s.worker_flags ++ (true ∷ []);
  }

  -- start, up to the accept loop: the socket is bound, and one selector thread is made.
  unfoldable pub start : (Text → ℕ → Bool) → Bool → Run (Server P) (Unit {0})
  start bind blocking s =
      let s' = marked blocking s in
      if bind s.bind_ip_address s.bind_port
      then ok tt (with_selector s')
      else throws socket_error s'

  unfoldable pub shut_down : Server P → Server P
  shut_down s =
      if s.active
      then record s {
        active = false;
        worker_flags = all_off s.worker_flags;
        packet_thread_pool = ThreadPool.shut_down s.packet_thread_pool;
      }
      else s

  unfoldable pub accept_one : AcceptEvent → Server P → Server P
  accept_one (accepts fd) s = record s {
    selector_workers = assign_connection_to_worker (create_new_connection fd) s.selector_workers;
  }
  accept_one fails s = s
  accept_one shuts_down s = shut_down s

  -- acceptLoop: the flag is read before each accept.
  unfoldable pub accept_loop : List AcceptEvent → Server P → Server P
  accept_loop [] s = s
  accept_loop (e ∷ events) s =
      let later = accept_loop events in if s.active then later (accept_one e s) else s
