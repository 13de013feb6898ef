-- ===== src/Util/SelectorThread/Writing.antt =====
-- What goes to the socket when a selector writes: the frames of the queued packets.
use re_mo_lon.Common.{
  ℕ, ◌+◌, ◌-◌, ◌≤◌, ◌<◌, ◌≡◌, refl, sym, ap, ◌∙◌, ◌⊎◌, inl, inr, List, [], ◌∷◌, ◌++◌, some, true,
  false, arith, length, take, drop, append_assoc, append-nil,
}
use re_mo_lon.Common.Outcome.{ok, ◌>>=◌}
use re_mo_lon.Util.ByteBuffer.{ByteBuffer, load, reset}
use re_mo_lon.Util.ByteBuffer.Content.{IsValid, content, load-some}
use re_mo_lon.Util.ByteBuffer.Moves.{append_content_lem}
use re_mo_lon.Util.Packet.Fields.{Sends}
use re_mo_lon.Util.Packet.Framing.{frame, write_packet-Sends}
use re_mo_lon.Util.Connection.{Sendable}
use re_mo_lon.Util.SelectorThread.{Writer, flush, append_helper, write_helper, write_one}

abbrev pub concat : List (List ℕ) → List ℕ
concat [] = []
concat (bs ∷ bss) = bs ++ concat bss

pub concat-append : (xs ys : List (List ℕ)) → concat (xs ++ ys) ≡ concat xs ++ concat ys
concat-append [] ys = refl
concat-append (x ∷ xs) ys =
    ap (λ t. x ++ t) (concat-append xs ys) ∙ sym (append_assoc x (concat xs) (concat ys))

-- Between two packets: both buffers are valid, and nothing is read from the one that is sent.
pub record IsReady (w : Writer) : Type 0 where
  pub write_valid : IsValid w.write_buffer
  pub helper_valid : IsValid w.write_buffer_helper
  pub unread : w.write_buffer.read ≡ 0

-- The written part of the buffer that is sent.
abbrev pub written : ByteBuffer → List ℕ
written b = take b.used b.mem

-- All that has gone out, or is about to.
abbrev pub output : Writer → List ℕ
output w = concat w.sent ++ written w.write_buffer

-- A packet with content `bs` is small enough for both buffers.
pub record Fits (w : Writer) (p : Sendable) (bs : List ℕ) : Type 0 where
  pub sends : Sends p.write_impl bs
  pub helper_room : length bs + 3 < w.write_buffer_helper.size
  pub write_room : length bs + 3 < w.write_buffer.size

-- The step from a writer to another with `bs` more in its output.
pub record Wrote (w : Writer) (bs : List ℕ) (w' : Writer) : Type 0 where
  pub ready : IsReady w'
  pub write_size : w'.write_buffer.size ≡ w.write_buffer.size
  pub helper_size : w'.write_buffer_helper.size ≡ w.write_buffer_helper.size
  pub grows : output w' ≡ output w ++ bs

pub reset-IsValid : (b : ByteBuffer) → IsValid b → IsValid (reset b)
reset-IsValid b v = record {
  owned = v.owned;
  read_le = omega arith;
  used_le = omega arith;
  small = v.small;
}

pub written-content : (b : ByteBuffer) → b.read ≡ 0 → content b ≡ written b
written-content b e =
    ap (λ r. take (b.used - r) (drop r b.mem)) e ∙ ap (λ k. take k b.mem) (omega arith)

-- The helper buffer then holds the frame and nothing else.
write_helper_lem :
    (p : Sendable) (bs : List ℕ) (w : Writer)
    → IsReady w
    → Fits w p bs
    → (h : ByteBuffer) × (write_helper p w ≡ ok tt (record w { write_buffer_helper = h }))
      × IsValid h
      × (h.size ≡ w.write_buffer_helper.size)
      × (h.used ≡ length bs + 3)
      × (written h ≡ frame p.opcode bs)
unfolding write_helper
write_helper_lem p bs w r f =
    let start : ByteBuffer = reset w.write_buffer_helper in
    let (h, e, a) =
      write_packet-Sends p.opcode p.write_impl bs f.sends start (reset-IsValid _ r.helper_valid)
        (omega (arith, f.helper_room)) in
    (
      h,
      rw (write_helper, e),
      a.valid,
      a.size_same,
      omega (arith, a.used_grows),
      sym (written-content h a.read_same) ∙ a.content_grows,
    )

-- The helper buffer goes behind what is written, if there is room.
append_helper_lem :
    (w : Writer)
    → IsReady w
    → ((w.write_buffer.used + w.write_buffer_helper.used < w.write_buffer.size)
        × ((w' : Writer) × (append_helper w ≡ ok true w')
            × Wrote w (written w.write_buffer_helper) w'
            × (w'.write_buffer_helper ≡ w.write_buffer_helper)))
      ⊎ ((w.write_buffer.size ≤ w.write_buffer.used + w.write_buffer_helper.used)
          × (append_helper w ≡ ok false w))
unfolding append_helper
append_helper_lem w r =
    elim (append_content_lem w.write_buffer_helper w.write_buffer r.helper_valid r.write_valid) [
      | inr (full, e) ↦ inr (full, rw (append_helper, e))
      | inl (room, (b, e, a)) ↦ inl (
        room,
        (
          record w { write_buffer = b },
          rw (append_helper, e),
          record {
            ready = record {
              write_valid = a.valid;
              helper_valid = r.helper_valid;
              unread = a.read_same ∙ r.unread;
            };
            write_size = a.size_same;
            helper_size = refl;
            grows =
                ap (λ t. concat w.sent ++ t)
                  (sym (written-content b (a.read_same ∙ r.unread))
                    ∙ a.content_grows
                    ∙ ap (λ t. t ++ written w.write_buffer_helper)
                        (written-content w.write_buffer r.unread))
                ∙ sym (
                    append_assoc (concat w.sent) (written w.write_buffer)
                      (written w.write_buffer_helper));
          },
          refl,
        ),
      )
    ]

-- The block that goes out is all that was written.
pub flush_lem :
    (w : Writer)
    → IsReady w
    → flush w ≡ ok tt (record w { sent = w.sent ++ (written w.write_buffer ∷ []) })
unfolding flush
flush_lem w r =
    let b = w.write_buffer in
    let loaded : load b.mem b.read b.used ≡ some (written b) =
      ap (λ i. load b.mem i b.used) r.unread
      ∙ load-some b.mem 0 b.used (omega (arith, r.write_valid.owned, r.write_valid.used_le)) in
    rw (flush, loaded)

-- The writer after a flush and a reset has the same output, and room.
abbrev pub flushed : Writer → Writer
flushed w = record w {
  write_buffer = reset w.write_buffer;
  sent = w.sent ++ (written w.write_buffer ∷ []);
}

pub output-flushed : (w : Writer) → output (flushed w) ≡ output w
output-flushed w =
    append-nil (concat (w.sent ++ (written w.write_buffer ∷ [])))
    ∙ concat-append w.sent (written w.write_buffer ∷ [])
    ∙ ap (λ t. concat w.sent ++ t) (append-nil (written w.write_buffer))

-- One packet more: its frame is in the output, whether the buffer had to be sent first or not.
pub write_one_lem :
    (p : Sendable) (bs : List ℕ) (w : Writer)
    → IsReady w
    → Fits w p bs
    → (w' : Writer) × (write_one p w ≡ ok tt w') × Wrote w (frame p.opcode bs) w'
unfolding write_one
write_one_lem p bs w r f =
    let (h, e, vh, size, used, is_frame) = write_helper_lem p bs w r f in
    let w1 : Writer = record w { write_buffer_helper = h } in
    let r1 : IsReady w1 = record {
      write_valid = r.write_valid;
      helper_valid = vh;
      unread = r.unread;
    } in
    elim (append_helper_lem w1 r1) [
      | inl (_, (w', e', a, same)) ↦ (
        w',
        rw (write_one, e, ◌>>=◌, e'),
        record {
          ready = a.ready;
          write_size = a.write_size;
          helper_size = a.helper_size ∙ size;
          grows = a.grows ∙ ap (λ t. output w ++ t) is_frame;
        },
      )
      | inr (full, e') ↦
          let w2 : Writer = flushed w1 in
          let r2 : IsReady w2 = record {
            write_valid = reset-IsValid _ r.write_valid;
            helper_valid = vh;
            unread = refl;
          } in
          elim (append_helper_lem w2 r2) [
            | inr (full', _) ↦ absurd (omega (arith, full', used, f.write_room))
            | inl (_, (w', e'', a, same)) ↦ (
              w',
              rw (write_one, e, ◌>>=◌, e', flush_lem w1 r1, ◌>>=◌, e''),
              record {
                ready = a.ready;
                write_size = a.write_size;
                helper_size = a.helper_size ∙ size;
                grows =
                    a.grows
                    ∙ (ap (λ t. t ++ written h) (output-flushed w1)
                        ∙ ap (λ t. output w ++ t) is_frame);
              },
            )
          ]
    ]
