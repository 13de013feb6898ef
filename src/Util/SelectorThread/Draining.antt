-- ===== src/Util/SelectorThread/Draining.antt =====
-- `writeToConnection` whole: the queue of a connection goes out, in its order.
use re_mo_lon.Common.{
  ℕ, zero, suc, ◌+◌, ◌<◌, ◌≡◌, refl, sym, ap, ◌∙◌, List, [], ◌∷◌, ◌++◌, ◌&&◌, not, ltb, arith,
  length, take, append_assoc, append-nil, ltb→le, inl, inr, Bool-cases,
}
use re_mo_lon.Common.Outcome.{ok, ◌>>=◌}
use re_mo_lon.Util.ByteBuffer.{reset}
use re_mo_lon.Util.ByteBuffer.Content.{IsValid}
use re_mo_lon.Util.Packet.Fields.{Sends}
use re_mo_lon.Util.Packet.Framing.{frame}
use re_mo_lon.Util.Connection.{Sendable, Connection, poll_sendable_packet}
use re_mo_lon.Util.SelectorThread.{Writer, write_remaining, write_queue, write_to_connection}
use re_mo_lon.Util.SelectorThread.Writing.{
  concat, concat-append, IsReady, Fits, Wrote, written, output, flush_lem, write_one_lem,
  reset-IsValid,
}

-- Packets with the contents that they write.
abbrev pub Packets : Type 0
Packets = List (Sendable × List ℕ)

abbrev pub packets_of : Packets → List Sendable
packets_of [] = []
packets_of ((p, bs) ∷ items) = p ∷ packets_of items

abbrev pub frames_of : Packets → List ℕ
frames_of [] = []
frames_of ((p, bs) ∷ items) = frame p.opcode bs ++ frames_of items

-- Each packet writes its content, which is small enough for buffers of these sizes.
abbrev pub AllFit : ℕ → ℕ → Packets → Type 0
AllFit helper_size write_size [] = Unit {0}
AllFit helper_size write_size ((p, bs) ∷ items) =
    Sends p.write_impl bs
    × (length bs + 3 < helper_size)
    × (length bs + 3 < write_size)
    × AllFit helper_size write_size items

-- The connection after its queue has gone out: the poll set waits for reads alone.
abbrev pub drained : Connection → Connection
drained c = record c { send_packets = []; wants_write = not c.polled && c.wants_write }

-- The loop ends, on any fuel above the length of the queue.
write_queue_lem :
    (items : Packets) (fuel hs ws : ℕ) (c : Connection) (w : Writer)
    → length items < fuel
    → IsReady w
    → w.write_buffer_helper.size ≡ hs
    → w.write_buffer.size ≡ ws
    → AllFit hs ws items
    → (w' : Writer) × (write_queue fuel (record c { send_packets = packets_of items }) w
        ≡ ok (drained c) w')
      × Wrote w (frames_of items) w'
unfolding write_queue poll_sendable_packet
write_queue_lem items zero hs ws c w enough r eh ew h = absurd (omega arith)
write_queue_lem [] (suc fuel) hs ws c w enough r eh ew h = (
  w,
  refl,
  record { ready = r; write_size = refl; helper_size = refl; grows = sym (append-nil (output w)) },
)
write_queue_lem ((p, bs) ∷ items) (suc fuel) hs ws c w enough r eh ew (sends, rh, rw', h) =
    let fits : Fits w p bs = record {
      sends = sends;
      helper_room = omega (arith, eh);
      write_room = omega (arith, ew);
    } in
    let (w1, e, a) = write_one_lem p bs w r fits in
    let (w2, e', b) =
      write_queue_lem items fuel hs ws c w1 (omega arith) a.ready (a.helper_size ∙ eh)
        (a.write_size ∙ ew) h in
    (
      w2,
      rw (write_queue, poll_sendable_packet, e, ◌>>=◌, e'),
      record {
        ready = b.ready;
        write_size = b.write_size ∙ a.write_size;
        helper_size = b.helper_size ∙ a.helper_size;
        grows =
            b.grows
            ∙ ap (λ t. t ++ frames_of items) a.grows
            ∙ append_assoc (output w) (frame p.opcode bs) (frames_of items);
      },
    )

length-packets_of : (items : Packets) → length (packets_of items) ≡ length items
length-packets_of [] = refl
length-packets_of ((p, bs) ∷ items) = ap suc (length-packets_of items)

write_remaining_lem :
    (w : Writer)
    → IsReady w
    → (w' : Writer) × (write_remaining w ≡ ok tt w') × (concat w'.sent ≡ output w)
unfolding write_remaining
write_remaining_lem w r = elim (Bool-cases (ltb 0 w.write_buffer.used)) [
  | inl some_left ↦ (
    record w { sent = w.sent ++ (written w.write_buffer ∷ []) },
    rw (write_remaining, some_left) (flush_lem w r),
    concat-append w.sent (written w.write_buffer ∷ [])
        ∙ ap (λ t. concat w.sent ++ t) (append-nil (written w.write_buffer)),
  )
  | inr none_left ↦
      let empty : w.write_buffer.used ≡ 0 = omega (arith, ltb→le 0 w.write_buffer.used none_left) in
      (
        w,
        rw (write_remaining, none_left),
        sym (
            ap (λ k. concat w.sent ++ take k w.write_buffer.mem) empty
            ∙ append-nil (concat w.sent)),
      )
]

-- For valid write buffers, and a queue of packets that each write a known content with room in
-- both buffers: the write to a connection ends, the blocks given to the socket put together are
-- the frames of the queued packets in the order of the queue, behind what was sent before, and the
-- queue is then empty and POLL_WRITE off for a polled connection.
pub write_to_connection_lem :
    (items : Packets) (c : Connection) (w : Writer)
    → IsValid w.write_buffer
    → IsValid w.write_buffer_helper
    → AllFit w.write_buffer_helper.size w.write_buffer.size items
    → c.send_packets ≡ packets_of items
    → (w' : Writer) × (write_to_connection c w ≡ ok (drained c) w')
      × (concat w'.sent ≡ concat w.sent ++ frames_of items)
unfolding write_to_connection
write_to_connection_lem items c w vw vh h e =
    let start : Writer = record w { write_buffer = reset w.write_buffer } in
    let r : IsReady start = record {
      write_valid = reset-IsValid _ vw;
      helper_valid = vh;
      unread = refl;
    } in
    let (w1, p, a) =
      write_queue_lem items (length c.send_packets + 1) _ _ c start
        (omega (arith, ap length e, length-packets_of items)) r refl refl h in
    let same : c ≡ record c { send_packets = packets_of items } =
      ap (λ q. record c { send_packets = q }) e in
    let whole : write_queue (length c.send_packets + 1) c start ≡ ok (drained c) w1 =
      ap (λ k. write_queue (length c.send_packets + 1) k start) same ∙ p in
    let (w2, q, out) = write_remaining_lem w1 a.ready in
    (
      w2,
      rw (write_to_connection, whole, ◌>>=◌, q),
      out ∙ a.grows ∙ ap (λ t. t ++ frames_of items) (append-nil (concat w.sent)),
    )
