-- ===== src/Util/Client/Sending.antt =====
-- The blocks that a client sends.
use re_mo_lon.Common.{
  ℕ, zero, suc, ◌+◌, ◌<◌, ◌≡◌, sym, ap, ◌∙◌, List, [], ◌∷◌, ◌++◌, none, some, true, if◌then◌else◌,
  arith, length, append_assoc, append-nil,
}
use re_mo_lon.Common.Outcome.{Outcome, ok, ◌>>=◌, ◌>>◌}
use re_mo_lon.Util.ByteBuffer.{ByteBuffer, load, reset}
use re_mo_lon.Util.ByteBuffer.Content.{IsValid, load-some}
use re_mo_lon.Util.Packet.Fields.{Sends}
use re_mo_lon.Util.Packet.Framing.{frame, write_packet-Sends}
use re_mo_lon.Util.Connection.{Sendable, Connection, poll_sendable_packet}
use re_mo_lon.Util.SelectorThread.Writing.{written, written-content, reset-IsValid}
use re_mo_lon.Util.SelectorThread.Draining.{Packets, packets_of, drained}
use re_mo_lon.Util.Client.{Client, send_one, send_loop}

-- A block for each packet: its frame.
abbrev pub blocks_of : Packets → List (List ℕ)
blocks_of [] = []
blocks_of ((p, bs) ∷ items) = frame p.opcode bs ∷ blocks_of items

-- Each packet writes its content, which is small enough for a buffer of this size.
abbrev pub AllSend : ℕ → Packets → Type 0
AllSend size [] = Unit {0}
AllSend size ((p, bs) ∷ items) = Sends p.write_impl bs × (length bs + 3 < size) × AllSend size items

module _ {P : Type 0} where
  send_one_lem :
      (p : Sendable) (bs : List ℕ) (c : Client P)
      → IsValid c.send_buffer
      → Sends p.write_impl bs
      → length bs + 3 < c.send_buffer.size
      → (b : ByteBuffer) × (send_one p c
          ≡ ok tt (record c { send_buffer = b; sent = c.sent ++ (frame p.opcode bs ∷ []) }))
        × IsValid b
        × (b.size ≡ c.send_buffer.size)
  unfolding send_one
  send_one_lem p bs c v sends room =
      let start : ByteBuffer = reset c.send_buffer in
      let (b, e, a) =
        write_packet-Sends p.opcode p.write_impl bs sends start (reset-IsValid _ v) (omega arith) in
      let is_frame : written b ≡ frame p.opcode bs =
        sym (written-content b a.read_same) ∙ a.content_grows in
      let loaded : load b.mem 0 b.used ≡ some (frame p.opcode bs) =
        load-some b.mem 0 b.used (omega (arith, a.valid.owned, a.valid.used_le))
        ∙ ap some is_frame in
      (b, rw (send_one, e, loaded), a.valid, a.size_same)

  active_round :
      (fuel : ℕ) (c : Client P)
      → c.active ≡ true
      → let (next, con) = poll_sendable_packet c.connection in
        let c' : Client P = record c { connection = con } in
        send_loop (suc fuel) c
        ≡ (elim next [ none ↦ ok tt c' | some p ↦ (send_one p >> send_loop fuel) c' ])
  unfolding send_loop
  active_round fuel c on =
      let (next, con) = poll_sendable_packet c.connection in
      let c' : Client P = record c { connection = con } in
      ap
        (λ a.
          if a
          then (elim next as (λ _. Outcome (Client P) (Unit {0})) [
            | none ↦ ok tt c'
            | some p ↦ (send_one p >> send_loop fuel) c'
          ])
          else ok tt c)
        on

  -- For an active client with a valid send buffer and a queue of packets that each write a known
  -- content with room in the buffer, the sending loop gives the frame of each packet to the socket
  -- as a block of its own, in the order of the queue, and the queue is then empty.
  pub send_loop_lem :
      (items : Packets) (fuel size : ℕ) (con : Connection) (c : Client P)
      → c.active ≡ true
      → length items < fuel
      → IsValid c.send_buffer
      → c.send_buffer.size ≡ size
      → AllSend size items
      → (b : ByteBuffer) × (send_loop fuel
            (record c { connection = record con { send_packets = packets_of items } })
          ≡ ok tt (record c {
            connection = drained con;
            send_buffer = b;
            sent = c.sent ++ blocks_of items;
          }))
        × IsValid b
  unfolding send_loop poll_sendable_packet
  send_loop_lem items zero size con c on enough v e h = absurd (omega arith)
  send_loop_lem [] (suc fuel) size con c on enough v e h = (
    c.send_buffer,
    active_round fuel (record c { connection = record con { send_packets = [] } }) on
        ∙ ap (λ s. ok tt (record c { connection = drained con; sent = s }))
            (sym (append-nil c.sent)),
    v,
  )
  send_loop_lem ((p, bs) ∷ items) (suc fuel) size con c on enough v e (sends, room, h) =
      let con' : Connection = record con { send_packets = packets_of items } in
      let (b, f, vb, same) =
        send_one_lem p bs (record c { connection = con' }) v sends (omega (arith, room, e)) in
      let c1 : Client P = record c { send_buffer = b; sent = c.sent ++ (frame p.opcode bs ∷ []) } in
      let (b', g, vb') = send_loop_lem items fuel size con c1 on (omega arith) vb (same ∙ e) h in
      (
        b',
        active_round fuel
              (record c { connection = record con { send_packets = p ∷ packets_of items } }) on
            ∙ rw (f, ◌>>=◌, g)
                (ap (λ s. ok tt (record c { connection = drained con; send_buffer = b'; sent = s }))
                  (append_assoc c.sent (frame p.opcode bs ∷ []) (blocks_of items))),
        vb',
      )
