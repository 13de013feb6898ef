-- ===== src/Util/Packet/Fields.antt =====
-- What a packet's `writeImpl` leaves in a buffer, and what a `readImpl` takes from it.
use re_mo_lon.Common.{
  ℕ, ◌+◌, ◌^◌, ◌<◌, ◌≡◌, refl, sym, subst, ◌∙◌, List, [], ◌++◌, Option, some, arith, length,
  length-append, append_assoc, append-nil,
}
use re_mo_lon.Common.Eq.{Text}
use re_mo_lon.Common.Outcome.{ok, ◌>>=◌, ◌>>◌, pure}
use re_mo_lon.Util.ByteBuffer.{ByteBuffer, bytes_4}
use re_mo_lon.Util.ByteBuffer.Content.{IsValid, Appended, content}
use re_mo_lon.Util.ByteBuffer.Writes.{
  Writes-Emits, string_bytes, Appended-trans, write_int-Writes, write_string-Writes,
}
use re_mo_lon.Util.ByteBuffer.Reads.{read_at, read_int-Parses, read_string-Parses}
use re_mo_lon.Util.Packet.{Attached, write_int, write_string, read_int, read_string}

-- On a valid buffer with room for `bs` and one byte more, `w` appends `bs`.
abbrev pub Sends : Attached (Unit {0}) → List ℕ → Type 0
Sends w bs =
    (b : ByteBuffer)
    → IsValid b
    → b.used + length bs < b.size
    → (b' : ByteBuffer) × (w (some b) ≡ ok tt (some b')) × Appended b bs b'

-- From a content that starts with `bs`, `r` answers `a` and leaves what follows `bs`.
abbrev pub Receives : {A : Type 0} → Attached A → List ℕ → A → Type 0
Receives r bs a =
    (b : ByteBuffer) (rest : List ℕ)
    → IsValid b
    → content b ≡ bs ++ rest
    → (r (some b) ≡ ok a (some (read_at b (b.read + length bs))))
      × IsValid (read_at b (b.read + length bs))
      × (content (read_at b (b.read + length bs)) ≡ rest)

pub nothing-Sends : Sends (pure tt) []
nothing-Sends b v h = (
  b,
  refl,
  record {
    valid = v;
    size_same = refl;
    read_same = refl;
    used_grows = omega arith;
    content_grows = sym (append-nil (content b));
    tail_same = refl;
  },
)

pub write_string-Sends : (s : Text) → length s < 2 ^ 62 → Sends (write_string s) (string_bytes s)
unfolding write_string
write_string-Sends s h b v fits =
    let (b', e, p) = Writes-Emits _ _ (write_string-Writes s h) b v fits in (b', rw e, p)

pub write_int-Sends : (i : ℕ) → Sends (write_int i) (bytes_4 i)
unfolding write_int
write_int-Sends i b v fits =
    let (b', e, p) = Writes-Emits _ _ (write_int-Writes i) b v fits in (b', rw e, p)

pub >>-Sends :
    (w u : Attached (Unit {0})) (xs ys : List ℕ)
    → Sends w xs
    → Sends u ys
    → Sends (w >> u) (xs ++ ys)
>>-Sends w u xs ys hw hu b v fits =
    let (b', e, p) = hw b v (omega (arith, length-append xs ys)) in
    let (c, f, q) = hu b' p.valid (omega (arith, length-append xs ys, p.used_grows, p.size_same)) in
    (c, rw (e, ◌>>=◌) f, Appended-trans b b' c xs ys p q)

pub pure-Receives : {A : Type 0} (a : A) → Receives (pure a) [] a
pure-Receives a b rest v e =
    let n : b.read ≡ b.read + 0 = omega arith in
    subst
      (λ p.
        (pure {S = Option ByteBuffer} a (some b) ≡ ok a (some (read_at b p)))
        × IsValid (read_at b p)
        × (content (read_at b p) ≡ rest))
      n (refl, v, e)

module _ {A B : Type 0} (r : Attached A) (f : A → Attached B) (xs ys : List ℕ) (a : A) (c : B) where
  pub >>=-Receives : Receives r xs a → Receives (f a) ys c → Receives (r >>= f) (xs ++ ys) c
  >>=-Receives hr hf b rest v e =
      let (p, v', e') = hr b (ys ++ rest) v (e ∙ append_assoc xs ys rest) in
      let (q, v'', e'') = hf (read_at b (b.read + length xs)) rest v' e' in
      let n : b.read + length xs + length ys ≡ b.read + length (xs ++ ys) =
        omega (arith, length-append xs ys) in
      subst
        (λ t.
          ((r >>= f) (some b) ≡ ok c (some (read_at b t)))
          × IsValid (read_at b t)
          × (content (read_at b t) ≡ rest))
        n (rw (p, ◌>>=◌) q, v'', e'')

pub read_string-Receives : (s : Text) → length s < 2 ^ 16 → Receives read_string (string_bytes s) s
unfolding read_string
read_string-Receives s h b rest v e =
    let (p, v', e') = read_string-Parses s h b rest v e in (rw p, v', e')

pub read_int-Receives : (i : ℕ) → i < 2 ^ 32 → Receives read_int (bytes_4 i) i
unfolding read_int
read_int-Receives i h b rest v e =
    let (p, v', e') = read_int-Parses i h b rest v e in (rw p, v', e')

-- One string or one integer, and then the rest of a packet.
module _ (u : Attached (Unit {0})) (ys : List ℕ) (hu : Sends u ys) where
  pub string-Sends :
      (s : Text) → length s < 2 ^ 62 → Sends (write_string s >> u) (string_bytes s ++ ys)
  string-Sends s h = >>-Sends (write_string s) u (string_bytes s) ys (write_string-Sends s h) hu

  pub int-Sends : (i : ℕ) → Sends (write_int i >> u) (bytes_4 i ++ ys)
  int-Sends i = >>-Sends (write_int i) u (bytes_4 i) ys (write_int-Sends i) hu

module _ {A : Type 0} (ys : List ℕ) (c : A) where
  pub string-Receives :
      (s : Text) (f : Text → Attached A)
      → length s < 2 ^ 16
      → Receives (f s) ys c
      → Receives (read_string >>= f) (string_bytes s ++ ys) c
  string-Receives s f h hf =
      >>=-Receives read_string f (string_bytes s) ys s c (read_string-Receives s h) hf

  pub int-Receives :
      (i : ℕ) (f : ℕ → Attached A)
      → i < 2 ^ 32
      → Receives (f i) ys c
      → Receives (read_int >>= f) (bytes_4 i ++ ys) c
  int-Receives i f h hf = >>=-Receives read_int f (bytes_4 i) ys i c (read_int-Receives i h) hf

module _ {A : Type 0} where
  -- The last field of a packet.
  pub last_string-Receives :
      (s : Text) (f : Text → A)
      → length s < 2 ^ 16
      → Receives (read_string >>= λ t. pure (f t)) (string_bytes s) (f s)
  last_string-Receives s f h =
      subst (λ bs. Receives (read_string >>= λ t. pure (f t)) bs (f s))
        (append-nil (string_bytes s))
        (string-Receives [] (f s) s (λ t. pure (f t)) h (pure-Receives (f s)))

  pub last_int-Receives :
      (i : ℕ) (f : ℕ → A) → i < 2 ^ 32 → Receives (read_int >>= λ j. pure (f j)) (bytes_4 i) (f i)
  last_int-Receives i f h =
      subst (λ bs. Receives (read_int >>= λ j. pure (f j)) bs (f i)) (append-nil (bytes_4 i))
        (int-Receives [] (f i) i (λ j. pure (f j)) h (pure-Receives (f i)))
