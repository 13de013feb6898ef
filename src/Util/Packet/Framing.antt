-- ===== src/Util/Packet/Framing.antt =====
-- The frame that `writePacket` puts round a content.
use re_mo_lon.Common.{
  ℕ, ◌+◌, ◌-◌, ◌%◌, ◌^◌, ◌≤◌, ◌<◌, ◌≡◌, refl, sym, ap, subst, ◌∙◌, List, [], ◌∷◌, ◌++◌, some, arith,
  length, take, drop, length-append, append_assoc, drop-take-drop, drop-drop, drop-append,
  take-append,
}
use re_mo_lon.Common.Outcome.{ok, ◌>>=◌}
use re_mo_lon.Util.ByteBuffer.{ByteBuffer, Buf, add_size, set_write_pos, byte_at, bytes_4}
use re_mo_lon.Util.ByteBuffer
use re_mo_lon.Util.ByteBuffer.Content.{
  IsValid, Appended, content, content-set_write_pos, content-set_write_pos_forward, length-content,
}
use re_mo_lon.Util.ByteBuffer.Writes.{
  Writes-Emits, Appended-trans, write_char-Writes, write_short-Writes,
}
use re_mo_lon.Util.Packet.{Attached, write_packet, packet_size}
use re_mo_lon.Util.Packet.Fields.{Sends}

-- The frame: one byte of opcode, two of size, and the content.
abbrev pub frame : ℕ → List ℕ → List ℕ
frame opcode bs = opcode ∷ byte_at (length bs % 2 ^ 16) 0 ∷ byte_at (length bs % 2 ^ 16) 8 ∷ bs

-- What was appended lies in the memory just below the new write position.
tail-Appended :
    (b : ByteBuffer) (bs : List ℕ) (b' : ByteBuffer)
    → IsValid b
    → Appended b bs b'
    → take (length bs) (drop b.used b'.mem) ≡ bs
tail-Appended b bs b' v p =
    let n : ℕ = b.used - b.read in
    let w : ℕ = b'.used - b'.read in
    let width : length bs ≡ w - n = omega (arith, p.used_grows, p.read_same, v.read_le) in
    let start : b.used ≡ b'.read + n = omega (arith, p.read_same, v.read_le) in
    ap (λ k. take k (drop b.used b'.mem)) width
    ∙ ap (λ k. take (w - n) (drop k b'.mem)) start
    ∙ sym (drop-take-drop n b'.read w b'.mem (omega (arith, p.used_grows, p.read_same, v.read_le)))
    ∙ ap (drop n) p.content_grows
    ∙ drop-append n (content b) bs (sym (length-content b v))

-- A header of three bytes written in front of a content that was written first.
module _ (b b1 b3 : ByteBuffer) (header bs : List ℕ) (v : IsValid b) (three : length header ≡ 3)
    (inner : Appended (set_write_pos (b.used + 3) b) bs b1)
    (outer : Appended (set_write_pos b.used b1) header b3) (room : b.used + 3 ≤ b.size) where
  mid-IsValid : IsValid (set_write_pos (b.used + 3) b)
  mid-IsValid = record {
    owned = v.owned;
    read_le = omega (arith, v.read_le);
    used_le = room;
    small = v.small;
  }

  ends : (b1.used ≡ b.used + 3 + length bs) × (b3.used ≡ b.used + 3)
  ends = (inner.used_grows, omega (arith, outer.used_grows))

  content-back : content (set_write_pos b.used b1) ≡ content b
  content-back =
      let X : List ℕ = take (b.used + 3 - b.used) (drop b.used b.mem) in
      content-set_write_pos b1 b.used (omega (arith, ends.0))
      ∙ ap (take (b.used - b1.read)) inner.content_grows
      ∙ ap (λ t. take (b.used - b1.read) (t ++ bs))
          (content-set_write_pos_forward b (b.used + 3) v.read_le (omega arith))
      ∙ ap (take (b.used - b1.read)) (append_assoc (content b) X bs)
      ∙ take-append (b.used - b1.read) (content b) (X ++ bs)
          (omega (arith, length-content b v, inner.read_same))

  behind : drop (b.used + 3) b3.mem ≡ drop (b.used + 3) b1.mem
  behind = subst (λ k. drop k b3.mem ≡ drop k b1.mem) ends.1 outer.tail_same

  content-frame : content (set_write_pos b1.used b3) ≡ content b ++ (header ++ bs)
  content-frame =
      let width : b1.used - b3.used ≡ length bs = omega (arith, ends.0, ends.1) in
      content-set_write_pos_forward b3 b1.used outer.valid.read_le (omega (arith, ends.0, ends.1))
      ∙ ap (λ k. content b3 ++ take k (drop b3.used b3.mem)) width
      ∙ ap (λ k. content b3 ++ take (length bs) (drop k b3.mem)) ends.1
      ∙ ap (λ t. content b3 ++ take (length bs) t) behind
      ∙ ap (λ t. content b3 ++ t)
          (tail-Appended (set_write_pos (b.used + 3) b) bs b1 mid-IsValid inner)
      ∙ ap (λ t. t ++ bs) outer.content_grows
      ∙ ap (λ t. (t ++ header) ++ bs) content-back
      ∙ append_assoc (content b) header bs

  tail-frame : drop b1.used b3.mem ≡ drop b1.used b.mem
  tail-frame =
      let far : b.used + 3 + length bs ≡ b1.used = sym ends.0 in
      ap (λ k. drop k b3.mem) ends.0
      ∙ sym (drop-drop (length bs) (b.used + 3) b3.mem)
      ∙ ap (drop (length bs)) behind
      ∙ drop-drop (length bs) (b.used + 3) b1.mem
      ∙ ap (λ k. drop k b1.mem) far
      ∙ inner.tail_same

  frame-Appended : Appended b (header ++ bs) (set_write_pos b1.used b3)
  frame-Appended = record {
    valid = record {
      owned = outer.valid.owned;
      read_le = omega (arith, outer.read_same, inner.read_same, v.read_le, ends.0);
      used_le = omega (arith, inner.valid.used_le, outer.size_same);
      small = outer.valid.small;
    };
    size_same = outer.size_same ∙ inner.size_same;
    read_same = outer.read_same ∙ inner.read_same;
    used_grows = omega (arith, ends.0, length-append header bs, three);
    content_grows = content-frame;
    tail_same = tail-frame;
  }

packet_size_lem : (start n : ℕ) → start + n < 2 ^ 63 → packet_size (start + n) start ≡ n % 2 ^ 16
packet_size_lem start n h = ground arith

-- The calls that `write_packet` makes, in turn.
write_packet_calls :
    (opcode : ℕ) (impl : Attached (Unit {0})) (n : ℕ) (b b1 b2 b3 : ByteBuffer)
    → add_size (add_size b.used 1) 2 ≡ b.used + 3
    → impl (some (set_write_pos (b.used + 3) b)) ≡ ok tt (some b1)
    → ByteBuffer.write_char opcode (set_write_pos b.used b1) ≡ ok tt b2
    → packet_size b1.used (b.used + 3) ≡ n
    → ByteBuffer.write_short n b2 ≡ ok tt b3
    → write_packet opcode impl (some b) ≡ ok tt (some (set_write_pos b1.used b3))
unfolding write_packet
write_packet_calls opcode impl n b b1 b2 b3 start e1 e2 size e3 =
    rw (start, e1, ◌>>=◌, e2, ◌>>=◌, start, size, e3)

-- A packet whose content is written whole on every valid buffer with room is framed by its opcode
-- and the low 16 bits of the content's length on every valid buffer with room for the frame.
pub write_packet-Sends :
    (opcode : ℕ) (impl : Attached (Unit {0})) (bs : List ℕ)
    → Sends impl bs
    → Sends (write_packet opcode impl) (frame opcode bs)
unfolding write_packet
write_packet-Sends opcode impl bs h b v fits =
    let start : add_size (add_size b.used 1) 2 ≡ b.used + 3 = omega (arith, v.used_le, v.small) in
    let mid : ByteBuffer = set_write_pos (b.used + 3) b in
    let vm : IsValid mid = record {
      owned = v.owned;
      read_le = omega arith;
      used_le = omega arith;
      small = v.small;
    } in
    let (b1, e1, p1) = h mid vm (omega arith) in
    let back : ByteBuffer = set_write_pos b.used b1 in
    let vb : IsValid back = record {
      owned = p1.valid.owned;
      read_le = omega (arith, p1.read_same, v.read_le);
      used_le = omega (arith, p1.size_same);
      small = p1.valid.small;
    } in
    let n : ℕ = length bs % 2 ^ 16 in
    let size : packet_size b1.used (b.used + 3) ≡ n =
      ap (λ k. packet_size k (b.used + 3)) p1.used_grows
      ∙ packet_size_lem (b.used + 3) (length bs) (omega (arith, v.small)) in
    let (b2, e2, p2) =
      Writes-Emits _ _ (write_char-Writes opcode) back vb (omega (arith, p1.size_same)) in
    let (b3, e3, p3) =
      Writes-Emits _ _ (write_short-Writes n) b2 p2.valid
        (omega (arith, p1.size_same, p2.size_same, p2.used_grows)) in
    (
      set_write_pos b1.used b3,
      write_packet_calls opcode impl n b b1 b2 b3 start e1 e2 size e3,
      frame-Appended b b1 b3 (opcode ∷ byte_at n 0 ∷ byte_at n 8 ∷ []) bs v refl p1
          (Appended-trans back b2 b3 _ _ p2 p3) (omega arith),
    )
