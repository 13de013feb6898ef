-- ===== src/Util/ByteBuffer/Reads.antt =====
-- Every read takes its value from the front of the content, or throws where too little is there.
use re_mo_lon.Common.{ℕ, ◌+◌, ◌%◌, ◌^◌, ◌<◌, ◌≡◌, ap, subst, List, [], ◌∷◌, ◌++◌, arith, length}
use re_mo_lon.Common.Eq.{Text}
use re_mo_lon.Common.Outcome.{ok, ◌>>=◌, pure}
use re_mo_lon.Util.ByteBuffer.{
  ByteBuffer, Buf, fetch, byte_at, bytes_4, bytes_8, from_bytes, read_char, read_short, read_int,
  read_long, read_float, read_double, read_string,
}
use re_mo_lon.Util.ByteBuffer.Content.{IsValid, content, fetch-content}
use re_mo_lon.Util.ByteBuffer.Writes.{string_bytes}

abbrev pub read_at : ByteBuffer → ℕ → ByteBuffer
read_at b p = record b { read = p }

-- `r` answers `a`, and reading goes on at position `p`, where `rest` is left.
abbrev pub Answers : {A : Type 0} → Buf A → ByteBuffer → A → List ℕ → ℕ → Type 0
Answers r b a rest p =
    (r b ≡ ok a (read_at b p)) × IsValid (read_at b p) × (content (read_at b p) ≡ rest)

-- From a content that starts with `bs`, `r` answers `a` and leaves what follows.
abbrev pub Parses : {A : Type 0} → Buf A → List ℕ → A → Type 0
Parses r bs a =
    (b : ByteBuffer) (rest : List ℕ)
    → IsValid b
    → content b ≡ bs ++ rest
    → Answers r b a rest (b.read + length bs)

pub read_char-Parses : (c : ℕ) → c < 256 → Parses read_char (c ∷ []) c
unfolding read_char
read_char-Parses c h b rest v e =
    let (p, v', e') = fetch-content (c ∷ []) rest b v e in
    (rw (p, ◌>>=◌) (ap (λ k. ok k (read_at b (b.read + 1))) (omega arith)), v', e')

pub read_short-Parses : (s : ℕ) → s < 2 ^ 16 → Parses read_short (byte_at s 0 ∷ byte_at s 8 ∷ []) s
unfolding read_short
read_short-Parses s h b rest v e =
    let (p, v', e') = fetch-content (byte_at s 0 ∷ byte_at s 8 ∷ []) rest b v e in
    (rw (p, ◌>>=◌) (ap (λ k. ok k (read_at b (b.read + 2))) (omega arith)), v', e')

from_bytes_4 : (i : ℕ) → i < 2 ^ 32 → from_bytes (bytes_4 i) ≡ i
from_bytes_4 i h = omega arith

from_bytes_8 : (l : ℕ) → l < 2 ^ 64 → from_bytes (bytes_8 l) ≡ l
from_bytes_8 l h = omega arith

four-Parses : (i : ℕ) → i < 2 ^ 32 → Parses (fetch 4 >>= λ bs. pure (from_bytes bs)) (bytes_4 i) i
four-Parses i h b rest v e =
    let (p, v', e') = fetch-content (bytes_4 i) rest b v e in
    (rw (p, ◌>>=◌) (ap (λ k. ok k (read_at b (b.read + 4))) (from_bytes_4 i h)), v', e')

eight-Parses : (l : ℕ) → l < 2 ^ 64 → Parses (fetch 8 >>= λ bs. pure (from_bytes bs)) (bytes_8 l) l
eight-Parses l h b rest v e =
    let (p, v', e') = fetch-content (bytes_8 l) rest b v e in
    (rw (p, ◌>>=◌) (ap (λ k. ok k (read_at b (b.read + 8))) (from_bytes_8 l h)), v', e')

pub read_int-Parses : (i : ℕ) → i < 2 ^ 32 → Parses read_int (bytes_4 i) i
unfolding read_int
read_int-Parses i h = four-Parses i h

-- From a valid buffer whose content starts with the eight bytes of a 64-bit number, that number is
-- read, and what follows is left.
pub read_long-Parses : (l : ℕ) → l < 2 ^ 64 → Parses read_long (bytes_8 l) l
unfolding read_long
read_long-Parses l h = eight-Parses l h

pub read_float-Parses : (f : ℕ) → f < 2 ^ 32 → Parses read_float (bytes_4 f) f
unfolding read_float
read_float-Parses f h = four-Parses f h

pub read_double-Parses : (d : ℕ) → d < 2 ^ 64 → Parses read_double (bytes_8 d) d
unfolding read_double
read_double-Parses d h = eight-Parses d h

-- From a valid buffer whose content starts with the bytes of a string of fewer than 2 ^ 16 bytes,
-- that string is read, and what follows is left.
pub read_string-Parses :
    (str : Text) → length str < 2 ^ 16 → Parses read_string (string_bytes str) str
unfolding read_string
read_string-Parses str h b rest v e =
    let n : ℕ = length str % 2 ^ 16 in
    let exact : n ≡ length str = omega arith in
    let (p, v', e') = read_short-Parses n (omega arith) b (str ++ rest) v e in
    let (q, v'', e'') = fetch-content str rest (read_at b (b.read + 2)) v' e' in
    let n : b.read + 2 + length str ≡ b.read + length (string_bytes str) = omega arith in
    subst (Answers read_string b str rest) n (rw (p, ◌>>=◌, exact) q, v'', e'')
