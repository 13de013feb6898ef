-- ===== src/Tests/Threads.antt =====
-- The threads of a server: what a selector reads, the queue of the pool, and the accept loop.
use re_mo_lon.Common.{ℕ, ◌≡◌, refl, List, [], ◌∷◌, ◌++◌, true, false, arith}
use re_mo_lon.Common.Eq.{nat_eq}
use re_mo_lon.Common.Outcome.{ok}
use re_mo_lon.Util.ByteBuffer.Content.{IsValid}
use re_mo_lon.Util.ThreadPool
use re_mo_lon.Util.ThreadPool.{ThreadPool, Worker, execute_task, worker_wakes}
use re_mo_lon.Util.ThreadPool.Fifo.{Runs, idle, accepts, takes, Runs-fifo}
use re_mo_lon.Common.Assoc.{find}
use re_mo_lon.Util.Connection.{Connection}
use re_mo_lon.Util.SelectorThread.{Reader, Selector, Polled, select_round}
use re_mo_lon.Util.SelectorThread.Rounds.{AllReadable, none_ready, readable, select_round_lem}
use re_mo_lon.Util.SelectorThread.Reading.{Stream, ends, completes, continues}
use re_mo_lon.FrontEnd.Packets.{ServerPacket, request_close_user_session}
use re_mo_lon.Node.Packets.{FrontendRequest, frontend_factories, read_request_close}
use re_mo_lon.Protocol.Requests.{request_bytes, received, reader-Receives}
use re_mo_lon.Tests.Data.{empty, empty-IsValid, ana, s1}

abbrev workers : List Worker
workers = record { last_active_time = 5; active = true; terminated = false } ∷ []

abbrev pool : {T : Type 0} → ThreadPool T
pool = record {
  pool = workers;
  tasks = [];
  min_pool_size = 1;
  current_pool_size = 1;
  max_idle_time = 60;
  max_queue_size = 256;
  active = true;
}

abbrev request : ServerPacket
request = request_close_user_session (record { user_name = ana; session_name = s1 })

-- The frame of a request with the header and a byte of another behind it, then two bytes more of
-- that, and the rest.
abbrev first_block : List ℕ
first_block = 2 ∷ 9 ∷ 0 ∷ 3 ∷ 0 ∷ 97 ∷ 110 ∷ 97 ∷ 2 ∷ 0 ∷ 115 ∷ 49 ∷ 2 ∷ 9 ∷ 0 ∷ 3 ∷ []

abbrev second_block : List ℕ
second_block = 0 ∷ 97 ∷ []

abbrev third_block : List ℕ
third_block = 110 ∷ 97 ∷ 2 ∷ 0 ∷ 115 ∷ 49 ∷ []

stream :
    Stream frontend_factories 48 0 []
      (first_block ∷ second_block ∷ third_block ∷ [])
      (received request ∷ received request ∷ [])
unfolding frontend_factories
stream =
    completes
      (record {
        opcode = 2;
        reader = read_request_close;
        fields = request_bytes request;
        low = omega arith;
        registered = refl;
        reads = reader-Receives request (omega arith, omega arith);
        short = omega arith;
        starts = refl;
      })
      (continues
        (record {
          opcode = 2;
          announced = 9;
          fields = 3 ∷ 0 ∷ 97 ∷ [];
          byte = omega arith;
          short = omega arith;
          below = omega arith;
          starts = refl;
          missing = omega arith;
        })
        (omega arith)
        (completes
          (record {
            opcode = 2;
            reader = read_request_close;
            fields = request_bytes request;
            low = omega arith;
            registered = refl;
            reads = reader-Receives request (omega arith, omega arith);
            short = omega arith;
            starts = refl;
          })
          ends))

abbrev reader : Reader FrontendRequest
reader = record { read_buffer = empty; thread_pool = pool }

abbrev connection : Connection
connection = record {
  sock_fd = 4;
  send_packets = [];
  polled = true;
  wants_write = false;
  is_open = true;
}

abbrev selector : Selector FrontendRequest
selector = record {
  connections = (4, connection) ∷ [];
  reader = reader;
  writer = record { write_buffer = empty; write_buffer_helper = empty; sent = [] };
  active = true;
}

abbrev polled : List Polled
polled =
    record {
      fd = 4;
      readable = true;
      writable = false;
      failed = false;
      blocks = first_block ∷ second_block ∷ third_block ∷ [];
    }
    ∷ []

all_readable :
    AllReadable frontend_factories 48 selector.connections polled
      (received request ∷ received request ∷ [])
unfolding find
all_readable = readable connection refl stream (omega arith) none_ready

select_round_lem_example :
    (s' : Selector FrontendRequest) × (select_round frontend_factories 100 polled (tt, selector)
      ≡ ok tt (tt, s'))
    × (s'.connections ≡ selector.connections)
    × IsValid s'.reader.read_buffer
    × (s'.reader.thread_pool.tasks ≡ [] ++ (received request ∷ received request ∷ []))
select_round_lem_example =
    select_round_lem frontend_factories 100 polled (received request ∷ received request ∷ []) tt
      selector all_readable empty-IsValid
      (record {
        workers = omega arith;
        room = omega arith;
        alive = (refl, tt);
        small = omega arith;
      })

-- Two tasks are submitted, and a worker takes the first.
abbrev busy : ThreadPool ℕ
busy = record pool { tasks = 7 ∷ 8 ∷ [] }

abbrev left : ThreadPool ℕ
left = (worker_wakes 9 0 busy).1

some_run : Runs pool (7 ∷ 8 ∷ []) (7 ∷ []) left
unfolding execute_task worker_wakes ThreadPool.next_task
some_run = accepts 1 7 refl (accepts 2 8 refl (takes 9 0 7 refl idle))

Runs-fifo_example : (7 ∷ []) ++ left.tasks ≡ [] ++ (7 ∷ 8 ∷ [])
Runs-fifo_example = Runs-fifo some_run
