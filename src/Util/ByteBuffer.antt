-- ===== src/Util/ByteBuffer.antt =====
-- ReMoLON_Util/ByteBuffer.h and ReMoLON_Util/src/ByteBuffer.cpp.
-- `mem` is what `_buf` points to ([] for the null pointer); an access outside it is a `fault`.
-- A `std::size_t` wraps at 2 ^ 64. An integer of w bits is its bit pattern, below 2 ^ w: the
-- mask 0xff is `% 256`, a shift right by k is a division by 2 ^ k, and the `|` of bytes in
-- disjoint places is their sum. A float or a double is its bit pattern on a little-endian host.
pub mod Content
pub mod Writes
pub mod Reads
pub mod Moves
use re_mo_lon.Common.{
  ℕ, zero, suc, ◌+◌, ◌-◌, ◌*◌, ◌/◌, ◌%◌, ◌^◌, List, [], ◌∷◌, ◌++◌, Option, none, some, Bool, ltb,
  leb, nat_beq, if◌then◌else◌, length, take, drop,
}
use re_mo_lon.Common.Eq.{Text}
use re_mo_lon.Common.Outcome.{Outcome, ok, throws, fault, Run, read_beyond_limit, ◌>>=◌, ◌>>◌, pure}

pub record ByteBuffer : Type 0 where
  pub mem : List ℕ
  pub used : ℕ
  pub read : ℕ
  pub size : ℕ

abbrev pub Buf : Type 0 → Type 0
Buf A = Run ByteBuffer A

abbrev pub add_size : ℕ → ℕ → ℕ
add_size a b = (a + b) % 2 ^ 64

abbrev pub sub_size : ℕ → ℕ → ℕ
sub_size a b = (a + 2 ^ 64 - b) % 2 ^ 64

-- The `n` bytes at index `i`, and the memory after `bs` is stored there.
unfoldable pub load : List ℕ → ℕ → ℕ → Option (List ℕ)
load m i n = if leb (i + n) (length m) then some (take n (drop i m)) else none

unfoldable pub store : List ℕ → ℕ → List ℕ → Option (List ℕ)
store m i bs =
    if leb (i + length bs) (length m)
    then some (take i m ++ (bs ++ drop (i + length bs) m))
    else none

-- `new char [ n ]`: what fresh memory holds is not determined, so it is an argument.
unfoldable pub allocate : (ℕ → ℕ) → ℕ → List ℕ
allocate junk zero = []
allocate junk (suc n) = junk n ∷ allocate junk n

-- The copy that `resize` keeps of the old content. The null pointer is not copied from.
kept : ByteBuffer → Option (List ℕ)
kept b = if nat_beq (length b.mem) 0 then some [] else load b.mem 0 b.used

-- `memcpy ( _buf, temp, oldUsed )` into the new memory.
restored : (ℕ → ℕ) → ℕ → List ℕ → ℕ → Option (List ℕ)
restored junk new_size temp old_used =
    if nat_beq (length temp) old_used then store (allocate junk new_size) 0 temp else none

unfoldable pub resize : (ℕ → ℕ) → ℕ → Buf (Unit {0})
unfolding kept restored
resize junk new_size b = elim (kept b) [
  | none ↦ fault
  | some temp ↦
      if ltb 0 new_size
      then elim (restored junk new_size temp b.used) [
        | none ↦ fault
        | some m ↦ ok tt (record { mem = m; used = 0; read = 0; size = new_size })
      ]
      else ok tt (record { mem = []; used = 0; read = 0; size = new_size })
]

-- The constructors: an empty buffer, resized.
abbrev pub unallocated : ByteBuffer
unallocated = record { mem = []; used = 0; read = 0; size = 0 }

unfoldable pub new_buffer : (ℕ → ℕ) → ℕ → Outcome ByteBuffer (Unit {0})
new_buffer junk size = resize junk size unallocated

unfoldable pub default_buffer : (ℕ → ℕ) → Outcome ByteBuffer (Unit {0})
default_buffer junk = new_buffer junk 65535

abbrev pub get_remaining_write_size : ByteBuffer → ℕ
get_remaining_write_size b = sub_size b.size b.used

abbrev pub get_remaining_read_size : ByteBuffer → ℕ
get_remaining_read_size b = sub_size b.used b.read

abbrev pub set_write_pos : ℕ → ByteBuffer → ByteBuffer
set_write_pos wp b = record b { used = wp }

abbrev pub set_read_pos : ℕ → ByteBuffer → ByteBuffer
set_read_pos rp b = record b { read = rp }

-- Bytes stored at the append pointer, and `_used` moved past them.
unfoldable pub put : List ℕ → Buf (Unit {0})
put bs b = elim (store b.mem b.used bs) [
  | none ↦ fault
  | some m ↦ ok tt (record b { mem = m; used = add_size b.used (length bs) })
]

-- The argument is the other buffer; the answer is that of the method.
unfoldable pub append_content : ByteBuffer → Buf Bool
append_content other b =
    if ltb other.used (get_remaining_write_size b)
    then elim (load other.mem 0 other.used) [
      | none ↦ fault
      | some bs ↦ (put bs >> pure Bool.true) b
    ]
    else ok Bool.false b

-- `memcpy` on ranges that overlap is undefined, and these two do where fewer bytes stand before the
-- read position than behind it. At the read position 0 they are the same range.
unfoldable pub compact : Buf (Unit {0})
compact b =
    let used_len = get_remaining_read_size b in
    let copied : Outcome ByteBuffer (Unit {0}) = elim (load b.mem b.read used_len) [
      | none ↦ fault
      | some bs ↦ elim (store b.mem 0 bs) [
        | none ↦ fault
        | some m ↦ ok tt (set_write_pos used_len (set_read_pos 0 (record b { mem = m })))
      ]
    ] in
    if ltb b.read used_len then fault else copied

abbrev pub rewind : ByteBuffer → ByteBuffer
rewind b = set_read_pos 0 b

abbrev pub reset : ByteBuffer → ByteBuffer
reset b = record b { used = 0; read = 0 }

-- ( v >> k ) & 0xff
abbrev pub byte_at : ℕ → ℕ → ℕ
byte_at v k = v / 2 ^ k % 256

-- A write of `n` bytes goes ahead only if `n + _used < _size`; otherwise nothing happens.
abbrev pub guarded : ℕ → Buf (Unit {0}) → Buf (Unit {0})
guarded n w b = if ltb (add_size n b.used) b.size then w b else ok tt b

unfoldable pub write_char : ℕ → Buf (Unit {0})
write_char c = guarded 1 (put (c ∷ []))

unfoldable pub write_short : ℕ → Buf (Unit {0})
write_short s = guarded 2 (put (byte_at s 0 ∷ byte_at s 8 ∷ []))

abbrev pub bytes_4 : ℕ → List ℕ
bytes_4 i = byte_at i 0 ∷ byte_at i 8 ∷ byte_at i 16 ∷ byte_at i 24 ∷ []

abbrev pub bytes_8 : ℕ → List ℕ
bytes_8 l =
    byte_at l 0
    ∷ byte_at l 8
    ∷ byte_at l 16
    ∷ byte_at l 24
    ∷ byte_at l 32
    ∷ byte_at l 40
    ∷ byte_at l 48
    ∷ byte_at l 56
    ∷ []

unfoldable pub write_int : ℕ → Buf (Unit {0})
write_int i = guarded 4 (put (bytes_4 i))

unfoldable pub write_long : ℕ → Buf (Unit {0})
write_long l = guarded 8 (put (bytes_8 l))

unfoldable pub write_float : ℕ → Buf (Unit {0})
write_float f = guarded 4 (put (bytes_4 f))

unfoldable pub write_double : ℕ → Buf (Unit {0})
write_double d = guarded 8 (put (bytes_8 d))

-- The length goes out as an `unsigned short`, the bytes of the string whole.
unfoldable pub write_string : Text → Buf (Unit {0})
write_string str b =
    if ltb (add_size (add_size (length str) 2) b.used) b.size
    then (write_short (length str % 2 ^ 16) >> put str) b
    else ok tt b

-- The `n` bytes at the read pointer, with `_read` moved past them.
unfoldable pub fetch : ℕ → Buf (List ℕ)
fetch n b =
    if ltb b.used (add_size b.read n)
    then throws read_beyond_limit b
    else elim (load b.mem b.read n) [
      | none ↦ fault
      | some bs ↦ ok bs (record b { read = add_size b.read n })
    ]

-- Bytes at increasing places: ( buf [ 0 ] & 0xff ) | ( ( buf [ 1 ] << 8 ) & 0xff00 ) | …
abbrev pub from_bytes : List ℕ → ℕ
from_bytes [] = 0
from_bytes (x ∷ xs) = x % 256 + 256 * from_bytes xs

unfoldable pub read_char : Buf ℕ
read_char = do bs ← fetch 1; pure (from_bytes bs)

unfoldable pub read_short : Buf ℕ
read_short = do bs ← fetch 2; pure (from_bytes bs)

unfoldable pub read_int : Buf ℕ
read_int = do bs ← fetch 4; pure (from_bytes bs)

unfoldable pub read_long : Buf ℕ
read_long = do bs ← fetch 8; pure (from_bytes bs)

unfoldable pub read_float : Buf ℕ
read_float = do bs ← fetch 4; pure (from_bytes bs)

unfoldable pub read_double : Buf ℕ
read_double = do bs ← fetch 8; pure (from_bytes bs)

unfoldable pub read_string : Buf Text
read_string = do str_size ← read_short; fetch str_size
