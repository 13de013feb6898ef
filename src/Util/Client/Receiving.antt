-- ===== src/Util/Client/Receiving.antt =====
-- The packets that reach the executor of a client.
use re_mo_lon.Common.{
  ℕ, ◌+◌, ◌-◌, ◌^◌, ◌≤◌, ◌<◌, ◌≡◌, refl, sym, ap, subst, ◌∙◌, List, [], ◌∷◌, ◌++◌, Option, some,
  true, if◌then◌else◌, arith, length, take, take-append, append_assoc, append-nil,
}
use re_mo_lon.Common.Outcome.{ok, ◌>>=◌, ◌>>◌}
use re_mo_lon.Util.ByteBuffer.{ByteBuffer, reset}
use re_mo_lon.Util.ByteBuffer.Content.{IsValid, content, patched, store-patched, length-patched}
use re_mo_lon.Util.ByteBuffer.Reads.{read_at}
use re_mo_lon.Util.Packet.{Attached}
use re_mo_lon.Util.Packet.Fields.{Receives}
use re_mo_lon.Util.Packet.Framing.{frame}
use re_mo_lon.Util.PacketHandler.{Factories, on_packet}
use re_mo_lon.Util.PacketHandler.Dispatch.{handle_packet-at}
use re_mo_lon.Util.Client.{Client, receive, receive_packet, recv_round, recv_loop}

-- A block that is received is the content of the buffer.
pub receive_lem :
    (block : List ℕ) (b : ByteBuffer)
    → IsValid b
    → length block ≤ b.size
    → (b' : ByteBuffer) × (receive block (reset b) ≡ some b')
      × IsValid b'
      × (b'.size ≡ b.size)
      × (content b' ≡ block)
unfolding receive
receive_lem block b v fits =
    let m : List ℕ = patched b.mem 0 block in
    let room : 0 + length block ≤ length b.mem = omega (arith, v.owned) in
    let whole : length block - 0 ≡ length block = omega arith in
    (
      record { mem = m; used = length block; read = 0; size = b.size },
      rw (receive, store-patched b.mem 0 block room),
      record {
        owned = length-patched b.mem 0 block room ∙ v.owned;
        read_le = omega arith;
        used_le = fits;
        small = v.small;
      },
      refl,
      ap (λ k. take k m) whole ∙ take-append (length block) block _ refl,
    )

module _ {P W : Type 0} (fs : Factories W P) where
  -- A block that starts with a whole frame of a registered packet class.
  pub record Arrival (size : ℕ) (block : List ℕ) (packet : P) : Type 0 where
    pub opcode : ℕ
    pub reader : Attached P
    pub bytes : List ℕ
    pub rest : List ℕ
    pub small : opcode < 128
    pub registered : fs opcode ≡ some (on_packet reader)
    pub reads : Receives reader bytes packet
    pub short : length bytes < 2 ^ 16
    pub starts : block ≡ frame opcode bytes ++ rest
    pub fits : length block ≤ size

  pub data Arrivals (size : ℕ) : List (List ℕ) → List P → Type 0 where
    quiet : Arrivals size [] []
    arrives :
        {block : List ℕ} {packet : P} {blocks : List (List ℕ)} {packets : List P}
        → Arrival size block packet
        → Arrivals size blocks packets
        → Arrivals size (block ∷ blocks) (packet ∷ packets)

  receive_packet_lem :
      (w : W) (c : Client P) (block : List ℕ) (packet : P)
      → IsValid c.recv_buffer
      → Arrival c.recv_buffer.size block packet
      → (b : ByteBuffer) × (receive_packet fs block (w, c)
          ≡ ok tt
              (w, record c { recv_buffer = b; exec_queue = c.exec_queue ++ (some packet ∷ []) }))
        × IsValid b
        × (b.size ≡ c.recv_buffer.size)
  unfolding receive_packet
  receive_packet_lem w c block packet v a =
      let (b, e, vb, size, all) = receive_lem block c.recv_buffer v a.fits in
      let (h, vb', _) =
        handle_packet-at fs w b vb a.opcode a.reader a.bytes a.rest packet a.small a.registered
          a.reads a.short (all ∙ a.starts) in
      (read_at b (b.read + 1 + 2 + length a.bytes), rw (receive_packet, e, h), vb', size)

  abbrev pub queued : List P → List (Option P)
  queued [] = []
  queued (p ∷ packets) = some p ∷ queued packets

  recv_loop_active :
      (block : List ℕ) (blocks : List (List ℕ)) (w : W) (c : Client P)
      → c.active ≡ true
      → recv_loop fs (block ∷ blocks) (w, c) ≡ (recv_round fs block >> recv_loop fs blocks) (w, c)
  unfolding recv_loop
  recv_loop_active block blocks w c on =
      ap (λ a. if a then (recv_round fs block >> recv_loop fs blocks) (w, c) else ok tt (w, c)) on

  -- For an active client with a valid receive buffer, and received blocks that each fit in the
  -- buffer and start with a whole frame of a registered packet class: the packets are queued for
  -- the executor in the order of the blocks, one for each block whatever follows its frame, and
  -- the receiving loop goes on.
  pub recv_loop_lem :
      (size : ℕ) (blocks : List (List ℕ)) (packets : List P) (w : W) (c : Client P)
      → Arrivals size blocks packets
      → c.active ≡ true
      → IsValid c.recv_buffer
      → c.recv_buffer.size ≡ size
      → (b : ByteBuffer) × (recv_loop fs blocks (w, c)
          ≡ ok tt (w, record c { recv_buffer = b; exec_queue = c.exec_queue ++ queued packets }))
        × IsValid b
  unfolding recv_loop
  recv_loop_lem size [] [] w c quiet on v e = (
    c.recv_buffer,
    ap (λ q. ok tt (w, record c { exec_queue = q })) (sym (append-nil c.exec_queue)),
    v,
  )
  recv_loop_lem size [] (p ∷ packets) w c a on v e = elim a [ ]
  recv_loop_lem size ([] ∷ blocks) [] w c a on v e = elim a [ ]
  recv_loop_lem size ((x ∷ block) ∷ blocks) [] w c a on v e = elim a [ ]
  recv_loop_lem size ([] ∷ blocks) (p ∷ packets) w c (arrives a as') on v e =
      absurd (omega (arith, ap length a.starts))
  recv_loop_lem size ((x ∷ block) ∷ blocks) (p ∷ packets) w c (arrives a as') on v e =
      let (b, h, vb, same) =
        receive_packet_lem w c (x ∷ block) p v (subst (λ k. Arrival k (x ∷ block) p) (sym e) a) in
      let c1 : Client P = record c {
        recv_buffer = b;
        exec_queue = c.exec_queue ++ (some p ∷ []);
      } in
      let (b', h', vb') = recv_loop_lem size blocks packets w c1 as' on vb (same ∙ e) in
      (
        b',
        recv_loop_active (x ∷ block) blocks w c on
            ∙ rw (h, ◌>>=◌, h')
                (ap (λ q. ok tt (w, record c { recv_buffer = b'; exec_queue = q }))
                  (append_assoc c.exec_queue (some p ∷ []) (queued packets))),
        vb',
      )
