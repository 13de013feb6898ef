-- ===== src/Util/SelectorThread/Reading.antt =====
-- What a selector makes of the blocks that it reads from one connection: a stream of frames, of
-- which one may be cut behind its header where what has come of it can be moved to the front.
use re_mo_lon.Common.{
  ℕ, suc, ◌+◌, ◌^◌, ◌≤◌, ◌<◌, ◌≡◌, refl, sym, ap, subst, ◌∙◌, inl, inr, List, [], ◌∷◌, ◌++◌, some,
  arith, length, length-append, append_assoc, append-nil,
}
use re_mo_lon.Common.Outcome.{ok, ◌>>=◌}
use re_mo_lon.Util.ByteBuffer.{ByteBuffer, byte_at, reset}
use re_mo_lon.Util.ByteBuffer.Content.{IsValid, content, length-content, put-Appended}
use re_mo_lon.Util.ByteBuffer.Reads.{read_at}
use re_mo_lon.Util.Packet.{Attached}
use re_mo_lon.Util.Packet.Fields.{Receives}
use re_mo_lon.Util.Packet.Framing.{frame}
use re_mo_lon.Util.PacketHandler.{Factories, on_packet}
use re_mo_lon.Util.PacketHandler.Dispatch.{handle_packet-at, handle_packet_part}
use re_mo_lon.Util.ThreadPool.{ThreadPool}
use re_mo_lon.Util.ThreadPool.Bounds.{IsReady, execute_task-IsReady}
use re_mo_lon.Util.SelectorThread.{
  Reader, submit, handle_block, read_block, read_blocks, read_from_connection,
}
use re_mo_lon.Util.SelectorThread.Writing.{concat, reset-IsValid}

module _ {P W : Type 0} (fs : Factories W P) where
  -- Bytes that start with a whole frame of a registered packet class, and what follows it.
  pub record Whole (bytes : List ℕ) (packet : P) (rest : List ℕ) : Type 0 where
    pub opcode : ℕ
    pub reader : Attached P
    pub fields : List ℕ
    pub low : opcode < 128
    pub registered : fs opcode ≡ some (on_packet reader)
    pub reads : Receives reader fields packet
    pub short : length fields < 2 ^ 16
    pub starts : bytes ≡ frame opcode fields ++ rest

  -- Bytes that are a header and less than the content that it announces.
  pub record Part (size : ℕ) (bytes : List ℕ) : Type 0 where
    pub opcode : ℕ
    pub announced : ℕ
    pub fields : List ℕ
    pub byte : opcode < 256
    pub short : announced < 2 ^ 16
    pub below : announced ≤ size
    pub starts : bytes ≡ opcode ∷ byte_at announced 0 ∷ byte_at announced 8 ∷ fields
    pub missing : length fields < announced

  -- The packets that blocks complete, one for each block at most, from the read position and the
  -- bytes that wait there. With the next block they are a whole frame and more, or a part of one that
  -- is no longer than what stands before it in the buffer.
  pub data Stream (size : ℕ) : ℕ → List ℕ → List (List ℕ) → List P → Type 0 where
    ends : {pos : ℕ} {waiting : List ℕ} → Stream size pos waiting [] []
    completes :
        {pos : ℕ} {waiting : List ℕ} {x : ℕ} {block rest : List ℕ} {packet : P}
        {blocks : List (List ℕ)} {packets : List P} (a : Whole (waiting ++ (x ∷ block)) packet rest)
        → Stream size (pos + 1 + 2 + length a.fields) rest blocks packets
        → Stream size pos waiting ((x ∷ block) ∷ blocks) (packet ∷ packets)
    continues :
        {pos : ℕ} {waiting : List ℕ} {x : ℕ} {block : List ℕ} {blocks : List (List ℕ)}
        {packets : List P}
        → Part size (waiting ++ (x ∷ block))
        → length (waiting ++ (x ∷ block)) ≤ pos
        → Stream size 0 (waiting ++ (x ∷ block)) blocks packets
        → Stream size pos waiting ((x ∷ block) ∷ blocks) packets

  module _ (now : ℕ) where
    -- A block that completes a frame.
    read_block-Whole :
        (w : W) (r : Reader P) (block rest : List ℕ) (packet : P) (k : ℕ)
        → IsValid r.read_buffer
        → r.read_buffer.used + length block ≤ r.read_buffer.size
        → (a : Whole (content r.read_buffer ++ block) packet rest) → IsReady (suc k) r.thread_pool
        → (b : ByteBuffer) × (pool : ThreadPool P) × (read_block fs now block (w, r)
            ≡ ok tt (w, record { read_buffer = b; thread_pool = pool }))
          × IsValid b
          × (b.read ≡ r.read_buffer.read + 1 + 2 + length a.fields)
          × (b.used ≡ r.read_buffer.used + length block)
          × (b.size ≡ r.read_buffer.size)
          × (content b ≡ rest)
          × (pool.tasks ≡ r.thread_pool.tasks ++ (packet ∷ []))
          × IsReady k pool
    unfolding read_block handle_block submit
    read_block-Whole w r block rest packet k v room a ready =
        let (b, e, p) = put-Appended block r.read_buffer v room in
        let (h, vb, left) =
          handle_packet-at fs w b p.valid a.opcode a.reader a.fields rest packet a.low a.registered
            a.reads a.short (p.content_grows ∙ a.starts) in
        let (pool, f, tasks, ready') = execute_task-IsReady now packet k r.thread_pool ready in
        (
          read_at b (b.read + 1 + 2 + length a.fields),
          pool,
          rw (read_block, e, handle_block, h, submit, f) refl,
          vb,
          ap (λ k. k + 1 + 2 + length a.fields) p.read_same,
          p.used_grows,
          p.size_same,
          left,
          tasks,
          ready',
        )

    -- A block that does not.
    read_block-Part :
        (w : W) (r : Reader P) (block : List ℕ)
        → IsValid r.read_buffer
        → r.read_buffer.used + length block ≤ r.read_buffer.size
        → Part r.read_buffer.size (content r.read_buffer ++ block)
        → length (content r.read_buffer ++ block) ≤ r.read_buffer.read
        → (b : ByteBuffer) × (read_block fs now block (w, r)
            ≡ ok tt (w, record r { read_buffer = b }))
          × IsValid b
          × (b.read ≡ 0)
          × (b.used ≤ r.read_buffer.used + length block)
          × (b.size ≡ r.read_buffer.size)
          × (content b ≡ content r.read_buffer ++ block)
    unfolding read_block handle_block submit
    read_block-Part w r block v room a before =
        let (b, e, p) = put-Appended block r.read_buffer v room in
        let parted =
          handle_packet_part fs w b p.valid a.opcode a.announced a.fields a.byte a.short
            (omega (arith, a.below, p.size_same)) (p.content_grows ∙ a.starts) a.missing in
        elim parted [
          | inr (over, _) ↦ absurd (omega (arith, over, before, ap length a.starts, p.read_same))
          | inl (_, b', h, vb, front, size_same, same) ↦ (
            b',
            rw (read_block, e, handle_block, h, submit) refl,
            vb,
            front,
            omega (
              arith,
              front,
              ap length same,
              length-content b p.valid,
              length-content b' vb,
              p.used_grows,
              p.valid.read_le,
            ),
            size_same ∙ p.size_same,
            same ∙ p.content_grows,
          )
        ]

    read_blocks_lem :
        {size pos : ℕ} {waiting : List ℕ} {blocks : List (List ℕ)} {packets : List P}
        → Stream size pos waiting blocks packets
        → (w : W) (r : Reader P) → IsValid r.read_buffer
        → r.read_buffer.size ≡ size
        → r.read_buffer.read ≡ pos
        → content r.read_buffer ≡ waiting
        → r.read_buffer.used + length (concat blocks) ≤ size
        → (k : ℕ) → IsReady (length packets + k) r.thread_pool
        → (r' : Reader P) × (read_blocks fs now blocks (w, r) ≡ ok tt (w, r'))
          × IsValid r'.read_buffer
          × (r'.read_buffer.size ≡ size)
          × IsReady k r'.thread_pool
          × (r'.thread_pool.tasks ≡ r.thread_pool.tasks ++ packets)
    unfolding read_blocks
    read_blocks_lem ends w r v es ep ew room k ready = (
      r,
      refl,
      v,
      es,
      subst (λ j. IsReady j r.thread_pool) (omega arith) ready,
      sym (append-nil _),
    )
    read_blocks_lem
          (completes {pos} {waiting} {x} {block} {rest} {packet} {blocks} {packets} a stream) w r v
          es ep ew room k ready =
        let here : Whole (content r.read_buffer ++ (x ∷ block)) packet rest = record {
          opcode = a.opcode;
          reader = a.reader;
          fields = a.fields;
          low = a.low;
          registered = a.registered;
          reads = a.reads;
          short = a.short;
          starts = ap (λ c. c ++ (x ∷ block)) ew ∙ a.starts;
        } in
        let total = length-append (x ∷ block) (concat blocks) in
        let (b, pool, e, vb, at, used, size_same, left, tasks, ready') =
          read_block-Whole w r (x ∷ block) rest packet (length packets + k) v
            (omega (arith, room, total, es)) here
            (subst (λ j. IsReady j r.thread_pool) (omega arith) ready) in
        let (r', e', v', size', free, tasks') =
          read_blocks_lem stream w (record { read_buffer = b; thread_pool = pool }) vb
            (size_same ∙ es) (at ∙ ap (λ j. j + 1 + 2 + length a.fields) ep) left
            (omega (arith, room, total, used)) k ready' in
        (
          r',
          rw (e, ◌>>=◌) e',
          v',
          size',
          free,
          tasks' ∙ ap (λ t. t ++ packets) tasks ∙ append_assoc _ (packet ∷ []) packets,
        )
    read_blocks_lem (continues {pos} {waiting} {x} {block} {blocks} {packets} a before stream) w r v
          es ep ew room k ready =
        let here =
          subst (λ c. Part r.read_buffer.size (c ++ (x ∷ block))) (sym ew)
            (subst (λ k. Part k (waiting ++ (x ∷ block))) (sym es) a) in
        let total = length-append (x ∷ block) (concat blocks) in
        let same_length = ap (λ c. length (c ++ (x ∷ block))) ew in
        let (b, e, vb, front, used, size_same, same) =
          read_block-Part w r (x ∷ block) v (omega (arith, room, total, es)) here
            (omega (arith, before, same_length, ep)) in
        let (r', e', v', size', free, tasks') =
          read_blocks_lem stream w (record r { read_buffer = b }) vb (size_same ∙ es) front
            (same ∙ ap (λ c. c ++ (x ∷ block)) ew) (omega (arith, room, total, used)) k ready in
        (r', rw (e, ◌>>=◌) e', v', size', free, tasks')

    -- The whole read, whatever the buffer held before, with room for `k` more tasks afterwards.
    pub read_from_connection-IsReady :
        (blocks : List (List ℕ)) (packets : List P) (w : W) (r : Reader P)
        → IsValid r.read_buffer
        → Stream r.read_buffer.size 0 [] blocks packets
        → length (concat blocks) ≤ r.read_buffer.size
        → (k : ℕ) → IsReady (length packets + k) r.thread_pool
        → (r' : Reader P) × (read_from_connection fs now blocks (w, r) ≡ ok tt (w, r'))
          × IsValid r'.read_buffer
          × (r'.read_buffer.size ≡ r.read_buffer.size)
          × IsReady k r'.thread_pool
          × (r'.thread_pool.tasks ≡ r.thread_pool.tasks ++ packets)
    unfolding read_from_connection
    read_from_connection-IsReady blocks packets w r v stream room k ready =
        read_blocks_lem stream w (record r { read_buffer = reset r.read_buffer })
          (reset-IsValid _ v) refl refl refl (omega (arith, room)) k ready
