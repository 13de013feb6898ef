-- ===== src/Tests/Clients.antt =====
-- A client that receives and sends, a pool of workers, and a server.
use re_mo_lon.Common.{ℕ, ◌≡◌, ◌⊎◌, refl, List, [], ◌∷◌, ◌++◌, true, false, some, arith}
use re_mo_lon.Common.Outcome.{ok, throws, task_queue_full}
use re_mo_lon.Util.ByteBuffer.{ByteBuffer}
use re_mo_lon.Util.ByteBuffer.Content.{IsValid}
use re_mo_lon.Util.ByteBuffer.Writes.{string_bytes}
use re_mo_lon.Util.Packet
use re_mo_lon.Util.Packet.Fields.{write_string-Sends}
use re_mo_lon.Util.Packet.Framing.{frame}
use re_mo_lon.Util.Connection.{Sendable, Connection}
use re_mo_lon.Util.SelectorThread.Draining.{Packets, drained}
use re_mo_lon.Util.Client.{Client, recv_loop, send_loop}
use re_mo_lon.Util.Client.Receiving.{Arrival, arrives, quiet, recv_loop_lem}
use re_mo_lon.Util.Client.Sending.{blocks_of, send_loop_lem}
use re_mo_lon.Util.SelectorThread.{Connections, get_num_connections}
use re_mo_lon.Util.Server.{assign_connection_to_worker, add_at}
use re_mo_lon.Util.Server.Load.{AllAtLeast, At, assign_connection_to_worker_lem}
use re_mo_lon.Util.ThreadPool.{ThreadPool, execute_task}
use re_mo_lon.Util.ThreadPool.Bounds.{IsBounded, execute_task-IsBounded}
use re_mo_lon.FrontEnd.Packets.{ServerPacket, request_close_user_session}
use re_mo_lon.Node.Packets.{FrontendRequest, frontend_factories, read_request_close}
use re_mo_lon.Protocol.Requests.{request_bytes, received, reader-Receives}
use re_mo_lon.Tests.Data.{empty, empty-IsValid, ana, s1}

abbrev connection : Connection
connection = record {
  sock_fd = 4;
  send_packets = [];
  polled = false;
  wants_write = false;
  is_open = true;
}

abbrev client : Client FrontendRequest
client = record {
  active = true;
  connection = connection;
  recv_buffer = empty;
  send_buffer = empty;
  exec_queue = [];
  sent = [];
}

abbrev request : ServerPacket
request = request_close_user_session (record { user_name = ana; session_name = s1 })

-- The frame of a request, with the first byte of another behind it.
abbrev block : List ℕ
block = frame 2 (request_bytes request) ++ (1 ∷ [])

arrival : Arrival frontend_factories 48 block (received request)
unfolding frontend_factories
arrival = record {
  opcode = 2;
  reader = read_request_close;
  bytes = request_bytes request;
  rest = 1 ∷ [];
  small = omega arith;
  registered = refl;
  reads = reader-Receives request (omega arith, omega arith);
  short = omega arith;
  starts = refl;
  fits = omega arith;
}

recv_loop_lem_example :
    (b : ByteBuffer) × (recv_loop frontend_factories (block ∷ block ∷ []) (tt, client)
      ≡ ok tt (
        tt,
        record client {
          recv_buffer = b;
          exec_queue = some (received request) ∷ some (received request) ∷ [];
        },
      ))
    × IsValid b
recv_loop_lem_example =
    recv_loop_lem frontend_factories 48 (block ∷ block ∷ [])
      (received request ∷ received request ∷ []) tt client (arrives arrival (arrives arrival quiet))
      refl empty-IsValid refl

abbrev packet : Sendable
packet = record { opcode = 1; write_impl = Packet.write_string ana }

abbrev items : Packets
items = (packet, string_bytes ana) ∷ (packet, string_bytes ana) ∷ []

send_loop_lem_example :
    (b : ByteBuffer) × (send_loop 3
        (record client { connection = record connection { send_packets = packet ∷ packet ∷ [] } })
      ≡ ok tt (record client {
        connection = drained connection;
        send_buffer = b;
        sent = blocks_of items;
      }))
    × IsValid b
send_loop_lem_example =
    let sends = write_string-Sends ana (omega arith) in
    send_loop_lem items 3 48 connection client refl (omega arith) empty-IsValid refl
      (sends, omega arith, (sends, omega arith, tt))

-- More workers than the least, one of them idle.
abbrev pool : ThreadPool ℕ
pool = record {
  pool =
      record { last_active_time = 5; active = true; terminated = false }
      ∷ record { last_active_time = 90; active = true; terminated = false }
      ∷ [];
  tasks = 7 ∷ [];
  min_pool_size = 1;
  current_pool_size = 2;
  max_idle_time = 60;
  max_queue_size = 256;
  active = true;
}

execute_task-IsBounded_example :
    ((pool.max_queue_size ≡ 1) × (execute_task 100 8 pool ≡ throws task_queue_full pool))
    ⊎ ((p' : ThreadPool ℕ) × (execute_task 100 8 pool ≡ ok tt p')
        × (p'.tasks ≡ (7 ∷ []) ++ (8 ∷ []))
        × IsBounded p')
execute_task-IsBounded_example =
    execute_task-IsBounded 100 8 pool (record { queue = omega arith; workers = omega arith })
      (refl, (refl, tt)) (omega arith)

-- A selector thread with a connection, and one without.
abbrev selectors : List Connections
selectors = ((3, connection) ∷ []) ∷ [] ∷ []

assign_connection_to_worker_lem_example :
    (AllAtLeast 999999 selectors × (assign_connection_to_worker connection selectors ≡ selectors))
    ⊎ ((j : ℕ) × (w : Connections) × At j w selectors
        × AllAtLeast (get_num_connections w) selectors
        × (assign_connection_to_worker connection selectors ≡ add_at j connection selectors))
assign_connection_to_worker_lem_example = assign_connection_to_worker_lem connection selectors
