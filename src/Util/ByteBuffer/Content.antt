-- ===== src/Util/ByteBuffer/Content.antt =====
-- The bytes that a buffer holds between its read and its write position, and what storing and
-- fetching do to them.
use re_mo_lon.Common.{
  ℕ, zero, suc, ◌+◌, ◌-◌, ◌^◌, ◌≤◌, ◌<◌, ◌≡◌, refl, sym, ap, ◌∙◌, List, [], ◌∷◌, ◌++◌, some, arith,
  ltb, true, false, length, take, drop, length-append, length-take, length-drop, take-append,
  drop-append, take-take, drop-take-drop, drop-drop, take-add, append_assoc, le→leb, lt→ltb, le→ltb,
}
use re_mo_lon.Common.Outcome.{ok, throws, read_beyond_limit}
use re_mo_lon.Util.ByteBuffer.{ByteBuffer, load, store, put, fetch, add_size, set_write_pos}

-- No read or write position lies outside the memory, and no position can wrap.
pub record IsValid (b : ByteBuffer) : Type 0 where
  pub owned : length b.mem ≡ b.size
  pub read_le : b.read ≤ b.used
  pub used_le : b.used ≤ b.size
  pub small : b.size < 2 ^ 63

-- What is still to be read.
abbrev pub content : ByteBuffer → List ℕ
content b = take (b.used - b.read) (drop b.read b.mem)

-- `b'` is `b` with `bs` appended; the memory behind them is as it was.
pub record Appended (b : ByteBuffer) (bs : List ℕ) (b' : ByteBuffer) : Type 0 where
  pub valid : IsValid b'
  pub size_same : b'.size ≡ b.size
  pub read_same : b'.read ≡ b.read
  pub used_grows : b'.used ≡ b.used + length bs
  pub content_grows : content b' ≡ content b ++ bs
  pub tail_same : drop b'.used b'.mem ≡ drop b'.used b.mem

-- The memory after a store.
abbrev pub patched : List ℕ → ℕ → List ℕ → List ℕ
patched m i bs = take i m ++ (bs ++ drop (i + length bs) m)

pub store-patched :
    (m : List ℕ) (i : ℕ) (bs : List ℕ)
    → i + length bs ≤ length m
    → store m i bs ≡ some (patched m i bs)
unfolding store
store-patched m i bs h = rw (le→leb _ _ h)

pub load-some : (m : List ℕ) (i n : ℕ) → i + n ≤ length m → load m i n ≡ some (take n (drop i m))
unfolding load
load-some m i n h = rw (le→leb _ _ h)

pub length-patched :
    (m : List ℕ) (i : ℕ) (bs : List ℕ)
    → i + length bs ≤ length m
    → length (patched m i bs) ≡ length m
length-patched m i bs h = omega (
  arith,
  length-append (take i m) (bs ++ drop (i + length bs) m),
  length-append bs (drop (i + length bs) m),
  length-take i m,
  length-drop (i + length bs) m,
)

drop-patched :
    (m : List ℕ) (i : ℕ) (bs : List ℕ)
    → i + length bs ≤ length m
    → drop (i + length bs) (patched m i bs) ≡ drop (i + length bs) m
drop-patched m i bs h =
    ap (drop (i + length bs)) (sym (append_assoc (take i m) bs (drop (i + length bs) m)))
    ∙ drop-append (i + length bs) (take i m ++ bs) (drop (i + length bs) m)
        (omega (arith, length-append (take i m) bs, length-take i m))

-- A window that ends just past what was stored.
window-patched :
    (m : List ℕ) (r i : ℕ) (bs : List ℕ)
    → r ≤ i
    → i + length bs ≤ length m
    → take (i + length bs - r) (drop r (patched m i bs)) ≡ take (i - r) (drop r m) ++ bs
window-patched m zero i bs hr h =
    let D : List ℕ = drop (i + length bs) m in
    let start : i + length bs - 0 ≡ i + length bs = omega arith in
    let cut : i ≡ i - 0 = omega arith in
    ap (λ k. take k (patched m i bs)) start
    ∙ ap (take (i + length bs)) (sym (append_assoc (take i m) bs D))
    ∙ take-append (i + length bs) (take i m ++ bs) D
        (omega (arith, length-append (take i m) bs, length-take i m))
    ∙ ap (λ k. take k m ++ bs) cut
window-patched [] (suc r) i bs hr h = absurd (omega arith)
window-patched (x ∷ m) (suc r) zero bs hr h = absurd (omega arith)
window-patched (x ∷ m) (suc r) (suc i) bs hr h =
    let width : suc i + length bs - suc r ≡ i + length bs - r = omega arith in
    let past : suc i + length bs ≡ suc (i + length bs) = omega arith in
    let cut : i - r ≡ suc i - suc r = omega arith in
    ap (λ k. take k (drop r (take i m ++ (bs ++ drop (suc i + length bs) (x ∷ m))))) width
    ∙ ap (λ k. take (i + length bs - r) (drop r (take i m ++ (bs ++ drop k (x ∷ m))))) past
    ∙ window-patched m r i bs (omega arith) (omega arith)
    ∙ ap (λ k. take k (drop r m) ++ bs) cut

pub put-Appended :
    (bs : List ℕ) (b : ByteBuffer)
    → IsValid b
    → b.used + length bs ≤ b.size
    → (b' : ByteBuffer) × (put bs b ≡ ok tt b') × Appended b bs b'
unfolding put
put-Appended bs b v h = (
  record b { mem = patched b.mem b.used bs; used = b.used + length bs },
  stored,
  record {
    valid = record {
      owned = length-patched b.mem b.used bs (omega arith) ∙ v.owned;
      read_le = omega arith;
      used_le = h;
      small = v.small;
    };
    size_same = refl;
    read_same = refl;
    used_grows = refl;
    content_grows = window-patched b.mem b.read b.used bs v.read_le (omega arith);
    tail_same = drop-patched b.mem b.used bs (omega arith);
  },
)
  where
    stored :
        put bs b ≡ ok tt (record b { mem = patched b.mem b.used bs; used = b.used + length bs })
    stored =
        rw (store-patched b.mem b.used bs (omega arith), put)
          (ap (λ u. ok tt (record b { mem = patched b.mem b.used bs; used = u })) (omega arith))

content_starts :
    (bs rest : List ℕ) (b : ByteBuffer)
    → IsValid b
    → content b ≡ bs ++ rest
    → (take (length bs) (drop b.read b.mem) ≡ bs) × (b.read + length bs ≤ b.used)
content_starts bs rest b v e =
    let fits : length bs ≤ b.used - b.read = omega (
      arith,
      ap length e,
      length-append bs rest,
      length-take (b.used - b.read) (drop b.read b.mem),
    ) in
    (
      sym (take-take (length bs) (b.used - b.read) (drop b.read b.mem) fits)
          ∙ ap (take (length bs)) e
          ∙ take-append (length bs) bs rest refl,
      omega arith,
    )

-- `n` bytes that are there are fetched, and what follows them is left.
pub fetch-content :
    (bs rest : List ℕ) (b : ByteBuffer)
    → IsValid b
    → content b ≡ bs ++ rest
    → (fetch (length bs) b ≡ ok bs (record b { read = b.read + length bs }))
      × IsValid (record b { read = b.read + length bs })
      × (content (record b { read = b.read + length bs }) ≡ rest)
unfolding fetch
fetch-content bs rest b v e =
    let (found, fits) = content_starts bs rest b v e in
    let small : ltb b.used (add_size b.read (length bs)) ≡ false = le→ltb _ _ (omega arith) in
    let next : add_size b.read (length bs) ≡ b.read + length bs = omega arith in
    (
      rw (small, load-some b.mem b.read (length bs) (omega arith), found, next),
      record { owned = v.owned; read_le = fits; used_le = v.used_le; small = v.small },
      left,
    )
  where
    left : content (record b { read = b.read + length bs }) ≡ rest
    left =
        let (found, fits) = content_starts bs rest b v e in
        let width : b.used - (b.read + length bs) ≡ b.used - b.read - length bs = omega arith in
        ap (λ k. take k (drop (b.read + length bs) b.mem)) width
        ∙ sym (drop-take-drop (length bs) b.read (b.used - b.read) b.mem (omega arith))
        ∙ ap (drop (length bs)) e
        ∙ drop-append (length bs) bs rest refl

-- Fewer bytes than asked for: the code throws, and the buffer is as it was.
pub fetch_short :
    (n : ℕ) (b : ByteBuffer)
    → IsValid b
    → n < 2 ^ 63
    → length (content b) < n
    → fetch n b ≡ throws read_beyond_limit b
unfolding fetch
fetch_short n b v small h =
    let beyond : ltb b.used (add_size b.read n) ≡ true = lt→ltb _ _ (
      omega (arith, length-take (b.used - b.read) (drop b.read b.mem), length-drop b.read b.mem)) in
    rw beyond

-- Moving the write position back cuts the content.
pub content-set_write_pos :
    (b : ByteBuffer) (w : ℕ)
    → w ≤ b.used
    → content (set_write_pos w b) ≡ take (w - b.read) (content b)
content-set_write_pos b w h =
    sym (take-take (w - b.read) (b.used - b.read) (drop b.read b.mem) (omega arith))

-- Moving it forward adds what lies in the memory there.
pub content-set_write_pos_forward :
    (b : ByteBuffer) (w : ℕ)
    → b.read ≤ b.used
    → b.used ≤ w
    → content (set_write_pos w b) ≡ content b ++ take (w - b.used) (drop b.used b.mem)
content-set_write_pos_forward b w hr h =
    let width : w - b.read ≡ b.used - b.read + (w - b.used) = omega arith in
    let start : b.read + (b.used - b.read) ≡ b.used = omega arith in
    ap (λ k. take k (drop b.read b.mem)) width
    ∙ take-add (b.used - b.read) (w - b.used) (drop b.read b.mem)
    ∙ ap (λ t. content b ++ take (w - b.used) t) (drop-drop (b.used - b.read) b.read b.mem)
    ∙ ap (λ k. content b ++ take (w - b.used) (drop k b.mem)) start

pub length-content : (b : ByteBuffer) → IsValid b → length (content b) ≡ b.used - b.read
length-content b v = omega (
  arith,
  length-take (b.used - b.read) (drop b.read b.mem),
  length-drop b.read b.mem,
  v.owned,
  v.used_le,
)
