-- ===== src/Util/SelectorThread.antt =====
-- ReMoLON_Util/src/SelectorThread.cpp: the connections of a selector, and what it reads and writes
-- when a socket is ready. Its two write buffers are those of the thread. What goes to the socket is
-- the list of the blocks given to `sendBytes`, and what comes from it the list of the blocks that
-- `receiveBytes` gives; a block longer than the room that is asked for is not such a list.
pub mod Writing
pub mod Draining
pub mod Reading
pub mod Rounds
use re_mo_lon.Common.{
  ℕ, zero, suc, ◌+◌, List, [], ◌∷◌, ◌++◌, Option, none, some, Bool, true, false, if◌then◌else◌, ltb,
  leb, length, ◌||◌,
}
use re_mo_lon.Common.Eq.{nat_eq}
use re_mo_lon.Common.Assoc.{find, assign, erase}
use re_mo_lon.Common.Outcome.{Outcome, ok, throws, fault, Run, ◌>>=◌, ◌>>◌, pure}
use re_mo_lon.Util.ByteBuffer.{ByteBuffer, load, reset, append_content, put}
use re_mo_lon.Util.Packet.{write_packet}
use re_mo_lon.Util.PacketHandler.{Factories, handle_packet}
use re_mo_lon.Util.ThreadPool.{ThreadPool, execute_task}
use re_mo_lon.Util.Connection.{
  Sendable, Connection, set_poll_set_source, poll_sendable_packet, end_connection,
}

-- std::map < int, ConnectionPtr >
abbrev pub Connections : Type 0
Connections = List (ℕ × Connection)

abbrev pub get_num_connections : Connections → ℕ
get_num_connections cs = length cs

-- The pollset waits for reads alone at first.
unfoldable pub add_connection : Connection → Connections → Bool × Connections
add_connection c cs = elim (find c.sock_fd cs) [
  | some _ ↦ (false, cs)
  | none ↦ (true, assign c.sock_fd (record (set_poll_set_source c) { wants_write = false }) cs)
]

unfoldable pub remove_connection : ℕ → Connections → Bool × Connections
remove_connection fd cs = elim (find fd cs) [ none ↦ (false, cs) | some _ ↦ (true, erase fd cs) ]

pub record Writer : Type 0 where
  pub write_buffer : ByteBuffer
  pub write_buffer_helper : ByteBuffer
  pub sent : List (List ℕ)

-- socket->sendBytes ( _writeBuffer.getReadPtr ( ), _writeBuffer.getUsedSize ( ) )
unfoldable pub flush : Run Writer (Unit {0})
flush w = elim (load w.write_buffer.mem w.write_buffer.read w.write_buffer.used) [
  | none ↦ fault
  | some block ↦ ok tt (record w { sent = w.sent ++ (block ∷ []) })
]

unfoldable pub append_helper : Run Writer Bool
append_helper w = elim (append_content w.write_buffer_helper w.write_buffer) [
  | ok fits b ↦ ok fits (record w { write_buffer = b })
  | throws e b ↦ throws e (record w { write_buffer = b })
  | fault ↦ fault
]

abbrev pub reset_write_buffer : Run Writer (Unit {0})
reset_write_buffer w = ok tt (record w { write_buffer = reset w.write_buffer })

-- The packet is written into the helper buffer.
unfoldable pub write_helper : Sendable → Run Writer (Unit {0})
write_helper p w = elim (write_packet p.opcode p.write_impl (some (reset w.write_buffer_helper))) [
  | ok _ (some b) ↦ ok tt (record w { write_buffer_helper = b })
  | ok _ none ↦ fault
  | throws e (some b) ↦ throws e (record w { write_buffer_helper = b })
  | throws e none ↦ fault
  | fault ↦ fault
]

-- The body of the loop of `writeToConnection`.
unfoldable pub write_one : Sendable → Run Writer (Unit {0})
write_one p = do
  write_helper p
  fits ← append_helper
  if fits then pure tt else do flush; reset_write_buffer; _ ← append_helper; pure tt

-- The loop, on fuel.
unfoldable pub write_queue : ℕ → Connection → Run Writer Connection
write_queue zero c = pure c
write_queue (suc fuel) c =
    let (next, c') = poll_sendable_packet c in
    let later = write_queue fuel c' in elim next [ none ↦ pure c' | some p ↦ write_one p >> later ]

-- What is left in the buffer.
unfoldable pub write_remaining : Run Writer (Unit {0})
write_remaining w = (if ltb 0 w.write_buffer.used then flush else pure tt) w

unfoldable pub write_to_connection : Connection → Run Writer Connection
write_to_connection c = do
  reset_write_buffer
  c' ← write_queue (length c.send_packets + 1) c
  write_remaining
  pure c'

-- What the reads of the thread change: its read buffer, and the pool that runs the packets. The
-- reader of a packet class can change `W`.
pub record Reader (P : Type 0) : Type 0 where
  pub read_buffer : ByteBuffer
  pub thread_pool : ThreadPool P

-- A socket that poll has found ready: its descriptor, the mask, and the blocks that it gives until
-- `receiveBytes` answers 0 or its timeout throws, both of which end the loop that reads.
pub record Polled : Type 0 where
  pub fd : ℕ
  pub readable : Bool
  pub writable : Bool
  pub failed : Bool
  pub blocks : List (List ℕ)

pub record Selector (P : Type 0) : Type 0 where
  pub connections : Connections
  pub reader : Reader P
  pub writer : Writer
  pub active : Bool

-- Both methods catch what is thrown, and print it.
abbrev pub caught {ℓ} : {S : Type ℓ} → Outcome S (Unit {0}) → Outcome S (Unit {0})
caught (ok _ s) = ok tt s
caught (throws e s) = ok tt s
caught fault = fault

module _ {W P : Type 0} (fs : Factories W P) (now : ℕ) where
  -- executeTask, for a packet that there is.
  unfoldable pub submit : Option P → Run (W × Reader P) (Unit {0})
  submit none s = ok tt s
  submit (some packet) (w, r) = elim (execute_task now packet r.thread_pool) [
    | ok _ pool ↦ ok tt (w, record r { thread_pool = pool })
    | throws e pool ↦ throws e (w, record r { thread_pool = pool })
    | fault ↦ fault
  ]

  -- The body of the try block. `total` is above 0 after a block with a byte in it.
  unfoldable pub handle_block : Run (W × Reader P) (Unit {0})
  handle_block (w, r) = elim (handle_packet fs (w, r.read_buffer)) [
    | ok packet (w', b) ↦ submit packet (w', record r { read_buffer = b })
    | throws e (w', b) ↦ throws e (w', record r { read_buffer = b })
    | fault ↦ fault
  ]

  -- A round of the loop: the bytes go to the append pointer, and the write position past them.
  unfoldable pub read_block : List ℕ → Run (W × Reader P) (Unit {0})
  read_block block (w, r) = elim (put block r.read_buffer) [
    | ok _ b ↦ caught (handle_block (w, record r { read_buffer = b }))
    | throws e b ↦ throws e (w, record r { read_buffer = b })
    | fault ↦ fault
  ]

  -- The loop, over what `receiveBytes` gives in turn: an empty block ends it, and so does the timeout,
  -- which is the end of the list.
  unfoldable pub read_blocks : List (List ℕ) → Run (W × Reader P) (Unit {0})
  read_blocks [] s = ok tt s
  read_blocks ([] ∷ blocks) s = ok tt s
  read_blocks ((x ∷ block) ∷ blocks) s = (read_block (x ∷ block) >> read_blocks blocks) s

  -- readFromConnection
  unfoldable pub read_from_connection : List (List ℕ) → Run (W × Reader P) (Unit {0})
  read_from_connection blocks (w, r) =
      read_blocks blocks (w, record r { read_buffer = reset r.read_buffer })

  abbrev pub on_reader : Run (W × Reader P) (Unit {0}) → Run (W × Selector P) (Unit {0})
  on_reader m (w, s) = elim (m (w, s.reader)) [
    | ok _ (w', r) ↦ ok tt (w', record s { reader = r })
    | throws e (w', r) ↦ throws e (w', record s { reader = r })
    | fault ↦ fault
  ]

  -- writeToConnection, and the connection back in its place. No handler of the thread catches what
  -- `writePacket` throws, which ends the program.
  unfoldable pub write_ready : ℕ → Connection → Run (W × Selector P) (Unit {0})
  write_ready fd c (w, s) = elim (write_to_connection c s.writer) [
    | ok c' out ↦ ok tt (w, record s { connections = assign fd c' s.connections; writer = out })
    | throws e out ↦ throws e (w, record s { writer = out })
    | fault ↦ fault
  ]

  -- handleConnectionCrash
  abbrev pub handle_connection_crash : ℕ → Run (W × Selector P) (Unit {0})
  handle_connection_crash fd (w, s) =
      ok tt (w, record s { connections = (remove_connection fd s.connections).1 })

  -- The body of the loop over the polled sockets. `_connections [ fd ]` is null for a descriptor
  -- without a connection.
  unfoldable pub process_polled : Polled → Run (W × Selector P) (Unit {0})
  process_polled p (w, s) = elim (find p.fd s.connections) [
    | none ↦ if p.readable || p.writable || p.failed then fault else ok tt (w, s)
    | some c ↦
        (do
          if p.readable then on_reader (read_from_connection p.blocks) else pure tt
          if p.writable then write_ready p.fd c else pure tt
          if p.failed then handle_connection_crash p.fd else pure tt)
          (w, s)
  ]

  -- A round of `selectLoop`, over what poll answers.
  unfoldable pub select_round : List Polled → Run (W × Selector P) (Unit {0})
  select_round [] s = ok tt s
  select_round (p ∷ polled) s = (process_polled p >> select_round polled) s

-- shutDown
abbrev pub shut_down : {P : Type 0} → Selector P → Selector P
shut_down s = record s { active = false }
