-- ===== src/Util/PacketHandler/Dispatch.antt =====
-- What `handlePacket` makes of the bytes that it finds.
use re_mo_lon.Common.{
  ◌⊎◌, inl, inr, Bool-cases, ltb→lt, ltb→le, ℕ, ◌+◌, ◌-◌, ◌%◌, ◌^◌, ◌≤◌, ◌<◌, ◌≡◌, ap, ◌∙◌, List,
  [], ◌∷◌, ◌++◌, none, some, true, false, arith, ltb, length, length-append, lt→ltb, le→ltb,
}
use re_mo_lon.Common.Outcome.{ok, throws, fault, read_beyond_limit, ◌>>=◌}
use re_mo_lon.Util.ByteBuffer.{ByteBuffer, byte_at, read_short, get_remaining_read_size}
use re_mo_lon.Util.ByteBuffer.Content.{IsValid, content, length-content, fetch_short}
use re_mo_lon.Util.ByteBuffer.Reads.{read_at, read_char-Parses, read_short-Parses}
use re_mo_lon.Util.ByteBuffer.Moves.{compact_lem, compact_overlap}
use re_mo_lon.Util.Packet.Framing.{frame}
use re_mo_lon.Util.PacketHandler.{
  Factories, handle_packet, handle_content, dispatch, on_packet, read_with,
}
use re_mo_lon.Util.Packet.{Attached}
use re_mo_lon.Util.Packet.Fields.{Receives}

-- The header of a frame is read, and the rest of the work starts behind it.
module _ {ℓ κ} {W : Type ℓ} {P : Type κ} (fs : Factories W P) (w : W) (b : ByteBuffer)
    (v : IsValid b) where
  header :
      (opcode size : ℕ) (rest : List ℕ)
      → opcode < 256
      → size < 2 ^ 16
      → content b ≡ opcode ∷ byte_at size 0 ∷ byte_at size 8 ∷ rest
      → (handle_packet fs (w, b)
          ≡ handle_content fs b.read opcode size (w, read_at b (b.read + 1 + 2)))
        × IsValid (read_at b (b.read + 1 + 2))
        × (content (read_at b (b.read + 1 + 2)) ≡ rest)
  unfolding handle_packet
  header opcode size rest small fits e =
      let more : ltb b.read b.used ≡ true =
        lt→ltb _ _ (omega (arith, ap length e, length-content b v)) in
      let (p, v', e') = read_char-Parses opcode small b _ v e in
      let (q, v'', e'') = read_short-Parses size fits (read_at b (b.read + 1)) rest v' e' in
      (rw (more, p, ◌>>=◌, q, ◌>>=◌), v'', e'')

  -- A whole frame goes to the reader of its opcode, which finds the content in front of it.
  pub handle_packet_whole :
      (opcode : ℕ) (bs rest : List ℕ)
      → opcode < 256
      → length bs < 2 ^ 16
      → content b ≡ frame opcode bs ++ rest
      → (handle_packet fs (w, b) ≡ dispatch fs opcode (w, read_at b (b.read + 1 + 2)))
        × IsValid (read_at b (b.read + 1 + 2))
        × (content (read_at b (b.read + 1 + 2)) ≡ bs ++ rest)
  unfolding handle_content
  handle_packet_whole opcode bs rest small fits e =
      let n : ℕ = length bs % 2 ^ 16 in
      let (p, v', e') = header opcode n (bs ++ rest) small (omega arith) e in
      let enough : length bs ≤ b.used - (b.read + 1 + 2) =
        omega (arith, length-content _ v', ap length e', length-append bs rest) in
      let sized : ltb b.size n ≡ false = le→ltb _ _ (omega (arith, v.used_le)) in
      let there : ltb (get_remaining_read_size (read_at b (b.read + 1 + 2))) n ≡ false =
        le→ltb _ _ (omega (arith, v'.read_le, v'.used_le, v'.small)) in
      (p ∙ rw (sized, there), v', e')

  -- A frame on a valid buffer whose header is there and whose content, no larger than the buffer,
  -- is not all there: where no more bytes of it have come than stand before it, nothing is
  -- answered, and the content of the buffer is as before and at its front; otherwise, and always
  -- at the front of the buffer, the copy to the front is undefined.
  pub handle_packet_part :
      (opcode size : ℕ) (bs : List ℕ)
      → opcode < 256
      → size < 2 ^ 16
      → size ≤ b.size
      → content b ≡ opcode ∷ byte_at size 0 ∷ byte_at size 8 ∷ bs
      → length bs < size
      → ((length bs + 3 ≤ b.read)
          × (b' : ByteBuffer) × (handle_packet fs (w, b) ≡ ok none (w, b'))
          × IsValid b'
          × (b'.read ≡ 0)
          × (b'.size ≡ b.size)
          × (content b' ≡ content b))
        ⊎ ((b.read < length bs + 3) × (handle_packet fs (w, b) ≡ fault))
  unfolding handle_content
  handle_packet_part opcode size bs small fits below e short =
      let (p, v', e') = header opcode size bs small fits e in
      let sized : ltb b.size size ≡ false = le→ltb _ _ below in
      let short' : ltb (get_remaining_read_size (read_at b (b.read + 1 + 2))) size ≡ true =
        lt→ltb _ _
          (omega (arith, ap length e', length-content _ v', v'.read_le, v'.used_le, v'.small)) in
      let there : length bs + 3 ≡ b.used - b.read =
        omega (arith, ap length e, length-content b v) in
      elim (Bool-cases (ltb b.read (length bs + 3))) [
        | inr apart ↦
            let room = ltb→le b.read (length bs + 3) apart in
            let (b', q, vb, r0, _, size_same, same) =
              compact_lem b v (omega (arith, room, there)) in
            inl (room, b', p ∙ rw (sized, short', q, ◌>>=◌), vb, r0, size_same, same)
        | inl over ↦
            let many = ltb→lt b.read (length bs + 3) over in
            inr (
              many,
              p ∙ rw (sized, short', compact_overlap b v (omega (arith, many, there)), ◌>>=◌),
            )
      ]

  -- Where fewer than three bytes of a header are there, and at least one, the handler throws and
  -- the opcode byte has been read.
  pub handle_packet_no_size :
      (opcode : ℕ) (bs : List ℕ)
      → opcode < 256
      → content b ≡ opcode ∷ bs
      → length bs < 2
      → handle_packet fs (w, b) ≡ throws read_beyond_limit (w, read_at b (b.read + 1))
  unfolding handle_packet read_short
  handle_packet_no_size opcode bs small e short =
      let more : ltb b.read b.used ≡ true =
        lt→ltb _ _ (omega (arith, ap length e, length-content b v)) in
      let (p, v', e') = read_char-Parses opcode small b bs v e in
      let q =
        fetch_short 2 (read_at b (b.read + 1)) v' (omega arith) (omega (arith, ap length e')) in
      rw (more, p, ◌>>=◌, q, ◌>>=◌)

  -- With nothing to read nothing happens.
  pub handle_packet_empty : content b ≡ [] → handle_packet fs (w, b) ≡ ok none (w, b)
  unfolding handle_packet
  handle_packet_empty e =
      let none_left : ltb b.read b.used ≡ false =
        le→ltb _ _ (omega (arith, ap length e, length-content b v)) in
      rw none_left

module _ {ℓ} {W : Type ℓ} {P : Type 0} (fs : Factories W P) (w : W) (b : ByteBuffer)
    (v : IsValid b) where
  pub handle_packet-at :
      (opcode : ℕ) (r : Attached P) (bs rest : List ℕ) (p : P)
      → opcode < 128
      → fs opcode ≡ some (on_packet r)
      → Receives r bs p
      → length bs < 2 ^ 16
      → content b ≡ frame opcode bs ++ rest
      → (handle_packet fs (w, b) ≡ ok (some p) (w, read_at b (b.read + 1 + 2 + length bs)))
        × IsValid (read_at b (b.read + 1 + 2 + length bs))
        × (content (read_at b (b.read + 1 + 2 + length bs)) ≡ rest)
  unfolding dispatch
  handle_packet-at opcode r bs rest p small registered reads fits e =
      let (h, v', e') = handle_packet_whole fs w b v opcode bs rest (omega arith) fits e in
      let (q, v'', e'') = reads (read_at b (b.read + 1 + 2)) rest v' e' in
      let low : ltb opcode 128 ≡ true = lt→ltb _ _ small in
      (h ∙ rw (low, registered, dispatch, q, read_with), v'', e'')

  -- A whole frame of a registered class, whose `readImpl` takes the content and touches the buffer
  -- alone: the packet is answered, and what follows the frame is left.
  pub handle_packet-Receives :
      (opcode : ℕ) (r : Attached P) (bs rest : List ℕ) (p : P)
      → opcode < 128
      → fs opcode ≡ some (on_packet r)
      → Receives r bs p
      → length bs < 2 ^ 16
      → content b ≡ frame opcode bs ++ rest
      → (b' : ByteBuffer) × (handle_packet fs (w, b) ≡ ok (some p) (w, b'))
        × IsValid b'
        × (content b' ≡ rest)
  handle_packet-Receives opcode r bs rest p small registered reads fits e =
      let (h, v', e') = handle_packet-at opcode r bs rest p small registered reads fits e in
      (read_at b (b.read + 1 + 2 + length bs), h, v', e')

  -- A whole frame whose opcode is a negative char makes the handler leave the table of factories,
  -- which is undefined behaviour.
  pub handle_packet_negative :
      (opcode : ℕ) (bs rest : List ℕ)
      → 128 ≤ opcode
      → opcode < 256
      → length bs < 2 ^ 16
      → content b ≡ frame opcode bs ++ rest
      → handle_packet fs (w, b) ≡ fault
  unfolding dispatch
  handle_packet_negative opcode bs rest low high fits e =
      let (h, _, _) = handle_packet_whole fs w b v opcode bs rest high fits e in
      let negative : ltb opcode 128 ≡ false = le→ltb _ _ low in h ∙ rw negative
