-- ===== src/Util/ByteBuffer/Moves.antt =====
-- Whole buffers: appending one to another, compacting, and resizing.
use re_mo_lon.Common.{
  ℕ, zero, suc, ◌+◌, ◌-◌, ◌^◌, ◌≤◌, ◌<◌, ◌≡◌, refl, sym, ap, ◌∙◌, ◌⊎◌, inl, inr, List, [], ◌∷◌,
  some, true, false, arith, ltb, nat_beq, length, take, drop, length-take, length-drop, take-append,
  Bool-cases, lt→ltb, ltb→lt, ltb→le, le→ltb, leb,
}
use re_mo_lon.Common.Outcome.{ok, fault, ◌>>=◌}
use re_mo_lon.Util.ByteBuffer.{
  ByteBuffer, load, store, allocate, kept, restored, resize, append_content, compact,
  get_remaining_write_size, get_remaining_read_size,
}
use re_mo_lon.Util.ByteBuffer.Content.{
  IsValid, Appended, content, patched, load-some, store-patched, length-patched, put-Appended,
}

module _ (other b : ByteBuffer) (vo : IsValid other) (v : IsValid b) where
  -- For valid buffers, the written part of the other buffer is appended whole where it ends before
  -- the last byte, and otherwise nothing changes and the answer is false.
  pub append_content_lem :
      ((b.used + other.used < b.size)
        × ((b' : ByteBuffer) × (append_content other b ≡ ok true b')
            × Appended b (take other.used other.mem) b'))
      ⊎ ((b.size ≤ b.used + other.used) × (append_content other b ≡ ok false b))
  unfolding append_content
  append_content_lem = elim (Bool-cases (ltb other.used (get_remaining_write_size b))) [
    | inl fits ↦
        let bs : List ℕ = take other.used other.mem in
        let room : b.used + other.used < b.size =
          omega (arith, ltb→lt _ _ fits, v.used_le, v.small) in
        let n : length bs ≡ other.used =
          omega (arith, length-take other.used other.mem, vo.owned, vo.used_le) in
        let (b', e, p) = put-Appended bs b v (omega arith) in
        inl (
          room,
          (
            b',
            rw (
              fits,
              load-some other.mem 0 other.used (omega (arith, vo.owned, vo.used_le)),
              e,
              ◌>>=◌,
            ),
            p,
          ),
        )
    | inr full ↦ inr (omega (arith, ltb→le _ _ full, v.used_le, v.small), rw full)
  ]

remaining : (b : ByteBuffer) → IsValid b → get_remaining_read_size b ≡ b.used - b.read
remaining b v = omega (arith, v.read_le, v.used_le, v.small)

-- Where more bytes are to be read than stand before them, compacting is undefined.
pub compact_overlap : (b : ByteBuffer) → IsValid b → b.read < b.used - b.read → compact b ≡ fault
unfolding compact
compact_overlap b v h =
    let over : ltb b.read (get_remaining_read_size b) ≡ true =
      lt→ltb _ _ (omega (arith, h, remaining b v)) in
    rw (compact, over) refl

-- On a valid buffer with no fewer bytes before the read position than behind it, compacting moves
-- what is still to be read to the front: the buffer stays valid, its content is the same, and its
-- read position is 0.
pub compact_lem :
    (b : ByteBuffer)
    → IsValid b
    → b.used - b.read ≤ b.read
    → (b' : ByteBuffer) × (compact b ≡ ok tt b')
      × IsValid b'
      × (b'.read ≡ 0)
      × (b'.used ≡ b.used - b.read)
      × (b'.size ≡ b.size)
      × (content b' ≡ content b)
unfolding compact
compact_lem b v apart =
    let bs : List ℕ = content b in
    let width : get_remaining_read_size b ≡ b.used - b.read = remaining b v in
    let separate : ltb b.read (get_remaining_read_size b) ≡ false =
      le→ltb _ _ (omega (arith, apart, width)) in
    let n : length bs ≡ b.used - b.read = omega (
      arith,
      length-take (b.used - b.read) (drop b.read b.mem),
      length-drop b.read b.mem,
      v.owned,
      v.used_le,
    ) in
    let m : List ℕ = patched b.mem 0 bs in
    let loaded : load b.mem b.read (get_remaining_read_size b) ≡ some bs =
      rw width
        (load-some b.mem b.read (b.used - b.read) (omega (arith, v.owned, v.read_le, v.used_le))) in
    let whole : b.used - b.read - 0 ≡ b.used - b.read = omega arith in
    (
      record { mem = m; used = b.used - b.read; read = 0; size = b.size },
      rw (separate, loaded, store-patched b.mem 0 bs (omega (arith, v.owned, v.used_le)), compact)
          (ap (λ u. ok tt (record { mem = m; used = u; read = 0; size = b.size })) width),
      record {
        owned = length-patched b.mem 0 bs (omega (arith, v.owned, v.used_le)) ∙ v.owned;
        read_le = omega arith;
        used_le = omega (arith, v.used_le);
        small = v.small;
      },
      refl,
      refl,
      refl,
      ap (λ k. take k m) whole ∙ take-append (b.used - b.read) bs _ (sym n),
    )

length-allocate : (junk : ℕ → ℕ) (n : ℕ) → length (allocate junk n) ≡ n
unfolding allocate
length-allocate junk zero = refl
length-allocate junk (suc n) = ap suc (length-allocate junk n)

module _ (junk : ℕ → ℕ) (n : ℕ) (b : ByteBuffer) (v : IsValid b) where
  kept_lem : kept b ≡ some (take b.used b.mem)
  unfolding kept
  kept_lem = elim (Bool-cases (nat_beq (length b.mem) 0)) [
    | inl empty ↦ rw empty (ap some (nothing b.mem b.used (ground (arith, empty))))
    | inr more ↦ rw (more, load-some b.mem 0 b.used (omega (arith, v.owned, v.used_le)))
  ]
    where
      nothing : (m : List ℕ) (k : ℕ) → length m ≡ 0 → [] ≡ take k m
      nothing [] zero h = refl
      nothing [] (suc k) h = refl
      nothing (x ∷ m) k h = absurd (omega arith)

  length-kept : length (take b.used b.mem) ≡ b.used
  length-kept = omega (arith, length-take b.used b.mem, v.owned, v.used_le)

  -- A valid buffer resized to a size above 0 and below 2 ^ 63 that holds what was written keeps
  -- those bytes, has the new size, and both positions are 0.
  pub resize-keeps :
      0 < n
      → n < 2 ^ 63
      → b.used ≤ n
      → (b' : ByteBuffer) × (resize junk n b ≡ ok tt b')
        × IsValid b'
        × (b'.size ≡ n)
        × (b'.used ≡ 0)
        × (b'.read ≡ 0)
        × (take b.used b'.mem ≡ take b.used b.mem)
  unfolding resize
  resize-keeps pos small fits =
      let old : List ℕ = take b.used b.mem in
      let fresh : List ℕ = allocate junk n in
      let room : 0 + length old ≤ length fresh =
        omega (arith, length-kept, length-allocate junk n) in
      let m : List ℕ = patched fresh 0 old in
      let whole : nat_beq (length old) b.used ≡ true = ground (arith, length-kept) in
      let same : restored junk n old b.used ≡ some m =
        unfold restored in rw whole (store-patched fresh 0 old room) in
      (
        record { mem = m; used = 0; read = 0; size = n },
        rw (kept_lem, lt→ltb _ _ pos, same, resize),
        record {
          owned = length-patched fresh 0 old room ∙ length-allocate junk n;
          read_le = omega arith;
          used_le = omega arith;
          small = small;
        },
        refl,
        refl,
        refl,
        take-append b.used old _ (sym length-kept),
      )

  -- A valid buffer resized to a size above 0 that is smaller than what was written copies past the
  -- end of the new memory.
  pub resize_overflow : 0 < n → n < b.used → resize junk n b ≡ fault
  unfolding resize restored store
  resize_overflow pos over =
      let whole : nat_beq (length (take b.used b.mem)) b.used ≡ true =
        ground (arith, length-kept) in
      let beyond : leb (0 + length (take b.used b.mem)) (length (allocate junk n)) ≡ false =
        ground (arith, length-kept, length-allocate junk n) in
      rw (kept_lem, lt→ltb _ _ pos, whole, beyond, resize)
