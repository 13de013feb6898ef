-- ===== src/Util/Client.antt =====
-- ReMoLON_Util/src/Client.cpp: a connection to a server with three threads, one for each loop. What
-- the receiving thread does is a function of the blocks that `receiveBytes` gives in turn, where an
-- empty block is the end of the connection; what the sending thread does is a function of the queue.
pub mod Receiving
pub mod Sending
pub mod Opening
use re_mo_lon.Common.{
  ℕ, zero, suc, ◌+◌, List, [], ◌∷◌, ◌++◌, Option, none, some, Bool, true, false, if◌then◌else◌,
  length, take,
}
use re_mo_lon.Common.Outcome.{Outcome, ok, throws, fault, Run, ◌>>=◌, ◌>>◌, pure}
use re_mo_lon.Util.ByteBuffer.{ByteBuffer, load, store, reset, set_write_pos}
use re_mo_lon.Util.Packet.{write_packet}
use re_mo_lon.Util.PacketHandler.{Factories, handle_packet}
use re_mo_lon.Util.Connection.{
  Sendable, Connection, send_packet, poll_sendable_packet, end_connection,
}

-- `sent` is what has been given to `sendBytes`.
pub record Client (P : Type 0) : Type 0 where
  pub active : Bool
  pub connection : Connection
  pub recv_buffer : ByteBuffer
  pub send_buffer : ByteBuffer
  pub exec_queue : List (Option P)
  pub sent : List (List ℕ)

-- The bytes that `receiveBytes` stores from the front of the memory, and their number.
unfoldable pub receive : List ℕ → ByteBuffer → Option ByteBuffer
receive block b = elim (store b.mem 0 block) [
  | none ↦ none
  | some m ↦ some (set_write_pos (length block) (record b { mem = m }))
]

module _ {P : Type 0} where
  abbrev pub queue_packet : Sendable → Client P → Client P
  queue_packet p c = record c { connection = send_packet p c.connection }

  unfoldable pub close : Client P → Client P
  close c = record c { active = false; connection = end_connection c.connection }

  -- The same as `close`.
  abbrev pub handle_crash : Client P → Client P
  handle_crash c = record c { active = false; connection = end_connection c.connection }

  module _ {W : Type 0} (fs : Factories W P) where
    -- What is done with a block: the packet goes to the queue of the executor. The loop has no
    -- handler for what `handlePacket` throws.
    unfoldable pub receive_packet : List ℕ → Run (W × Client P) (Unit {0})
    receive_packet block (w, c) = elim (receive block (reset c.recv_buffer)) [
      | none ↦ fault
      | some b ↦ elim (handle_packet fs (w, b)) [
        | ok packet (w', b') ↦
            ok tt (w', record c { recv_buffer = b'; exec_queue = c.exec_queue ++ (packet ∷ []) })
        | throws e (w', b') ↦ throws e (w', record c { recv_buffer = b' })
        | fault ↦ fault
      ]
    ]

    -- A round of the loop. After an empty block the client is not active, which ends the loop.
    abbrev pub recv_round : List ℕ → Run (W × Client P) (Unit {0})
    recv_round [] (w, c) = ok tt (w, handle_crash c)
    recv_round (x ∷ block) s = receive_packet (x ∷ block) s

    unfoldable pub recv_loop : List (List ℕ) → Run (W × Client P) (Unit {0})
    recv_loop [] s = ok tt s
    recv_loop (block ∷ blocks) s =
        let later = recv_loop blocks in
        if s.1.active then (recv_round block >> later) s else ok tt s

  -- A packet of the sending loop.
  unfoldable pub send_one : Sendable → Run (Client P) (Unit {0})
  send_one p c = elim (write_packet p.opcode p.write_impl (some (reset c.send_buffer))) [
    | ok _ (some b) ↦ elim (load b.mem 0 b.used) [
      | none ↦ fault
      | some block ↦ ok tt (record c { send_buffer = b; sent = c.sent ++ (block ∷ []) })
    ]
    | ok _ none ↦ fault
    | throws e (some b) ↦ throws e (record c { send_buffer = b })
    | throws e none ↦ fault
    | fault ↦ fault
  ]

  -- The sending loop until the client is not active, or the queue is empty and the thread waits, on
  -- fuel.
  unfoldable pub send_loop : ℕ → Run (Client P) (Unit {0})
  send_loop zero c = ok tt c
  send_loop (suc fuel) c =
      let (next, con) = poll_sendable_packet c.connection in
      let c' = record c { connection = con } in
      let later = send_loop fuel in
      if c.active
      then elim next [ none ↦ ok tt c' | some p ↦ (send_one p >> later) c' ]
      else ok tt c

  -- A round of the executor: the packet that runs, if there is one, and the client.
  unfoldable pub exec_round : Client P → Option P × Client P
  exec_round c = elim c.exec_queue [
    | [] ↦ (none, c)
    | next ∷ queue ↦ (next, record c { exec_queue = queue })
  ]
