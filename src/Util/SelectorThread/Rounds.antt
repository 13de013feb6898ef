-- ===== src/Util/SelectorThread/Rounds.antt =====
-- A round of the select loop in which sockets have something to read.
use re_mo_lon.Common.{
  ℕ, ◌≤◌, ◌≡◌, refl, sym, ap, subst, ◌∙◌, List, [], ◌∷◌, ◌++◌, some, true, false, arith, length,
  length-append, append_assoc, append-nil,
}
use re_mo_lon.Common.Eq.{nat_eq}
use re_mo_lon.Common.Assoc.{find}
use re_mo_lon.Common.Outcome.{ok, ◌>>=◌}
use re_mo_lon.Util.ByteBuffer.Content.{IsValid}
use re_mo_lon.Util.PacketHandler.{Factories}
use re_mo_lon.Util.ThreadPool.Bounds.{IsReady}
use re_mo_lon.Util.Connection.{Connection}
use re_mo_lon.Util.SelectorThread.{
  Connections, Polled, Reader, Selector, process_polled, select_round,
}
use re_mo_lon.Util.SelectorThread.Writing.{concat}
use re_mo_lon.Util.SelectorThread.Reading.{Stream, read_from_connection-IsReady}

module _ {P W : Type 0} (fs : Factories W P) where
  -- Sockets of connections in the set that can be read, and no more, each with a stream of packets
  -- small enough for the buffer.
  pub data AllReadable (size : ℕ) (cs : Connections) : List Polled → List P → Type 0 where
    none_ready : AllReadable size cs [] []
    readable :
        {fd : ℕ} {blocks : List (List ℕ)} {packets : List P} {polled : List Polled} {rest : List P}
        (c : Connection)
        → find fd cs ≡ some c
        → Stream fs size 0 [] blocks packets
        → length (concat blocks) ≤ size
        → AllReadable size cs polled rest
        → AllReadable size cs
            (record { fd = fd; readable = true; writable = false; failed = false; blocks = blocks }
              ∷ polled)
            (packets ++ rest)

  module _ (now : ℕ) where
    select_round-IsReady :
        {size : ℕ} {cs : Connections} {polled : List Polled} {packets : List P}
        → AllReadable size cs polled packets
        → (w : W) (s : Selector P) → s.connections ≡ cs
        → IsValid s.reader.read_buffer
        → s.reader.read_buffer.size ≡ size
        → IsReady (length packets) s.reader.thread_pool
        → (r' : Reader P) × (select_round fs now polled (w, s)
            ≡ ok tt (w, record s { reader = r' }))
          × IsValid r'.read_buffer
          × (r'.thread_pool.tasks ≡ s.reader.thread_pool.tasks ++ packets)
    unfolding select_round process_polled
    select_round-IsReady none_ready w s ec v es ready = (s.reader, refl, v, sym (append-nil _))
    select_round-IsReady
          (readable {fd} {blocks} {packets} {polled} {rest} c there stream room later) w s ec v es
          ready =
        let here : find fd s.connections ≡ some c = ap (find fd) ec ∙ there in
        let (r', e, v', size_same, free, tasks) =
          read_from_connection-IsReady fs now blocks packets w s.reader v
            (subst (λ k. Stream fs k 0 [] blocks packets) (sym es) stream) (omega (arith, room, es))
            (length rest)
            (subst (λ j. IsReady j s.reader.thread_pool) (length-append packets rest) ready) in
        let (r'', e', v'', tasks') =
          select_round-IsReady later w (record s { reader = r' }) ec v' (size_same ∙ es) free in
        (
          r'',
          rw (process_polled, here, e, ◌>>=◌) e',
          v'',
          tasks' ∙ ap (λ t. t ++ rest) tasks ∙ append_assoc _ packets rest,
        )

    -- For a valid read buffer, and polled sockets of connections in the set that can be read and
    -- no more, each of which gives blocks that have room in the buffer together and are a stream
    -- of frames of registered packet classes whose `readImpl` touches the buffer alone, with one
    -- frame at most completed by each block, and cut only behind a header where no more bytes of
    -- the frame have come than stand before it in the buffer; and for a pool none of whose workers
    -- has ended, with room in its queue for all their packets: the round of the select loop ends
    -- without an exception, the packets of all sockets are queued in the pool, in the order of the
    -- sockets and of each one's stream, and the connections are as before.
    pub select_round_lem :
        (polled : List Polled) (packets : List P) (w : W) (s : Selector P)
        → AllReadable s.reader.read_buffer.size s.connections polled packets
        → IsValid s.reader.read_buffer
        → IsReady (length packets) s.reader.thread_pool
        → (s' : Selector P) × (select_round fs now polled (w, s) ≡ ok tt (w, s'))
          × (s'.connections ≡ s.connections)
          × IsValid s'.reader.read_buffer
          × (s'.reader.thread_pool.tasks ≡ s.reader.thread_pool.tasks ++ packets)
    select_round_lem polled packets w s all v ready =
        let (r', e, v', tasks) = select_round-IsReady all w s refl v refl ready in
        (record s { reader = r' }, e, refl, v', tasks)
