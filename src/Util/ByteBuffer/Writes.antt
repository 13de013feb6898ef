-- ===== src/Util/ByteBuffer/Writes.antt =====
-- Every write of a buffer either appends the encoding of its value or does nothing.
use re_mo_lon.Common.{
  ℕ, suc, ◌+◌, ◌%◌, ◌^◌, ◌≤◌, ◌<◌, ◌≡◌, refl, sym, ap, ◌∙◌, List, [], ◌∷◌, ◌++◌, ◌⊎◌, inl, inr,
  arith, ltb, length, length-append, append_assoc, drop, drop-drop, ltb→lt, ltb→le, Bool-cases,
}
use re_mo_lon.Common.Eq.{Text}
use re_mo_lon.Common.Outcome.{ok, ◌>>=◌}
use re_mo_lon.Util.ByteBuffer.{
  ByteBuffer, Buf, put, add_size, guarded, byte_at, bytes_4, bytes_8, write_char, write_short,
  write_int, write_long, write_float, write_double, write_string,
}
use re_mo_lon.Util.ByteBuffer.Content.{IsValid, Appended, content, put-Appended}

-- `bs` is appended where it leaves a free byte, and nothing changes where it does not.
abbrev pub Writes : Buf (Unit {0}) → List ℕ → Type 0
Writes w bs =
    (b : ByteBuffer)
    → IsValid b
    → ((b.used + length bs < b.size) × ((b' : ByteBuffer) × (w b ≡ ok tt b') × Appended b bs b'))
      ⊎ ((b.size ≤ b.used + length bs) × (w b ≡ ok tt b))

-- Where the bytes fit, they are appended.
abbrev pub Emits : Buf (Unit {0}) → List ℕ → Type 0
Emits w bs =
    (b : ByteBuffer)
    → IsValid b
    → b.used + length bs < b.size
    → (b' : ByteBuffer) × (w b ≡ ok tt b') × Appended b bs b'

pub Writes-Emits : (w : Buf (Unit {0})) (bs : List ℕ) → Writes w bs → Emits w bs
Writes-Emits w bs h b v fits = elim (h b v) [
  | inl (_, r) ↦ r
  | inr (full, _) ↦ absurd (omega arith)
]

guarded-Writes : (n : ℕ) (bs : List ℕ) → length bs ≡ n → n ≤ 8 → Writes (guarded n (put bs)) bs
guarded-Writes n bs e small b v = elim (Bool-cases (ltb (add_size n b.used) b.size)) [
  | inl fits ↦
      let room : b.used + length bs < b.size = omega (arith, ltb→lt _ _ fits, v.used_le, v.small) in
      inl (room, rw fits (put-Appended bs b v (omega arith)))
  | inr full ↦ inr (omega (arith, ltb→le _ _ full, v.used_le, v.small), rw full)
]

pub write_char-Writes : (c : ℕ) → Writes (write_char c) (c ∷ [])
unfolding write_char
write_char-Writes c = guarded-Writes 1 (c ∷ []) refl (omega arith)

pub write_short-Writes : (s : ℕ) → Writes (write_short s) (byte_at s 0 ∷ byte_at s 8 ∷ [])
unfolding write_short
write_short-Writes s = guarded-Writes 2 _ refl (omega arith)

pub write_int-Writes : (i : ℕ) → Writes (write_int i) (bytes_4 i)
unfolding write_int
write_int-Writes i = guarded-Writes 4 _ refl (omega arith)

pub write_long-Writes : (l : ℕ) → Writes (write_long l) (bytes_8 l)
unfolding write_long
write_long-Writes l = guarded-Writes 8 _ refl (omega arith)

pub write_float-Writes : (f : ℕ) → Writes (write_float f) (bytes_4 f)
unfolding write_float
write_float-Writes f = guarded-Writes 4 _ refl (omega arith)

pub write_double-Writes : (d : ℕ) → Writes (write_double d) (bytes_8 d)
unfolding write_double
write_double-Writes d = guarded-Writes 8 _ refl (omega arith)

-- Two appends are one.
pub Appended-trans :
    (a b c : ByteBuffer) (xs ys : List ℕ)
    → Appended a xs b
    → Appended b ys c
    → Appended a (xs ++ ys) c
Appended-trans a b c xs ys p q = record {
  valid = q.valid;
  size_same = q.size_same ∙ p.size_same;
  read_same = q.read_same ∙ p.read_same;
  used_grows = omega (arith, q.used_grows, p.used_grows, length-append xs ys);
  tail_same =
      let later : b.used + length ys ≡ c.used = sym q.used_grows in
      q.tail_same
      ∙ ap (λ k. drop k b.mem) q.used_grows
      ∙ sym (drop-drop (length ys) b.used b.mem)
      ∙ ap (drop (length ys)) p.tail_same
      ∙ drop-drop (length ys) b.used a.mem
      ∙ ap (λ k. drop k a.mem) later;
  content_grows =
      q.content_grows ∙ ap (λ t. t ++ ys) p.content_grows ∙ append_assoc (content a) xs ys;
}

-- What a string looks like in a buffer: its length modulo 2 ^ 16, then its bytes.
abbrev pub string_bytes : Text → List ℕ
string_bytes str = byte_at (length str % 2 ^ 16) 0 ∷ byte_at (length str % 2 ^ 16) 8 ∷ str

-- On a valid buffer a string of fewer than 2 ^ 62 bytes is written whole behind its length where
-- it ends before the last byte, and otherwise nothing changes.
pub write_string-Writes :
    (str : Text) → length str < 2 ^ 62 → Writes (write_string str) (string_bytes str)
unfolding write_string
write_string-Writes str small b v =
    elim (Bool-cases (ltb (add_size (add_size (length str) 2) b.used) b.size)) [
      | inl fits ↦
          let room : b.used + suc (suc (length str)) < b.size =
            omega (arith, ltb→lt _ _ fits, v.used_le, v.small) in
          let n : ℕ = length str % 2 ^ 16 in
          let (b', e, p) = Writes-Emits _ _ (write_short-Writes n) b v (omega arith) in
          let (c, f, q) = put-Appended str b' p.valid (omega (arith, p.used_grows, p.size_same)) in
          inl (room, (c, rw (fits, e, ◌>>=◌) f, Appended-trans b b' c _ str p q))
      | inr full ↦ inr (omega (arith, ltb→le _ _ full, v.used_le, v.small), rw full)
    ]
