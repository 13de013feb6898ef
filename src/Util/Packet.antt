-- ===== src/Util/Packet.antt =====
-- ReMoLON_Util/Packet.h and ReMoLON_Util/src/Packet.cpp. The state of a packet is its `_buf`:
-- `none` is the null pointer, and the writes of a packet without a buffer do nothing.
-- The packet's `_con` and the virtual `run` are in PacketHandler and in the packets themselves.
pub mod Fields
pub mod Framing
use re_mo_lon.Common.{ℕ, ◌+◌, ◌-◌, ◌%◌, ◌^◌, List, [], ◌∷◌, Option, none, some, ltb, if◌then◌else◌}
use re_mo_lon.Common.Eq.{Text}
use re_mo_lon.Common.Outcome.{Outcome, ok, throws, fault, Run, ◌>>=◌, ◌>>◌, pure}
use re_mo_lon.Util.ByteBuffer.{ByteBuffer, Buf, add_size, sub_size, set_write_pos}
use re_mo_lon.Util.ByteBuffer

abbrev pub Attached : Type 0 → Type 0
Attached A = Run (Option ByteBuffer) A

abbrev pub held : {A : Type 0} → Outcome ByteBuffer A → Outcome (Option ByteBuffer) A
held (ok a b) = ok a (some b)
held (throws e b) = throws e (some b)
held fault = fault

-- setBuffer ( buf )
abbrev pub set_buffer : Option ByteBuffer → Attached (Unit {0})
set_buffer buf _ = ok tt buf

-- if ( _buf ) { … }, with an answer for the packet that has no buffer.
abbrev pub if_attached : {A : Type 0} → A → Buf A → Attached A
if_attached a m none = ok a none
if_attached a m (some b) = held (m b)

-- _buf->…, with no test: undefined on the null pointer.
abbrev pub deref : {A : Type 0} → Buf A → Attached A
deref m none = fault
deref m (some b) = held (m b)

unfoldable pub write_char : ℕ → Attached (Unit {0})
write_char c = if_attached tt (ByteBuffer.write_char c)

unfoldable pub write_short : ℕ → Attached (Unit {0})
write_short s = if_attached tt (ByteBuffer.write_short s)

unfoldable pub write_int : ℕ → Attached (Unit {0})
write_int i = if_attached tt (ByteBuffer.write_int i)

unfoldable pub write_long : ℕ → Attached (Unit {0})
write_long l = if_attached tt (ByteBuffer.write_long l)

unfoldable pub write_float : ℕ → Attached (Unit {0})
write_float f = if_attached tt (ByteBuffer.write_float f)

unfoldable pub write_double : ℕ → Attached (Unit {0})
write_double d = if_attached tt (ByteBuffer.write_double d)

unfoldable pub write_string : Text → Attached (Unit {0})
write_string s = if_attached tt (ByteBuffer.write_string s)

unfoldable pub read_char : Attached ℕ
read_char = if_attached 0 ByteBuffer.read_char

unfoldable pub read_short : Attached ℕ
read_short = if_attached 0 ByteBuffer.read_short

unfoldable pub read_int : Attached ℕ
read_int = if_attached 0 ByteBuffer.read_int

unfoldable pub read_long : Attached ℕ
read_long = if_attached 0 ByteBuffer.read_long

unfoldable pub read_float : Attached ℕ
read_float = if_attached 0 ByteBuffer.read_float

unfoldable pub read_double : Attached ℕ
read_double = if_attached 0 ByteBuffer.read_double

unfoldable pub read_string : Attached Text
read_string = if_attached [] ByteBuffer.read_string

abbrev pub get_write_pos : Buf ℕ
get_write_pos b = ok b.used b

abbrev pub move_write_pos : ℕ → Buf (Unit {0})
move_write_pos p b = ok tt (set_write_pos p b)

-- ( short ) after as a `std::size_t`: the sign bit is extended.
abbrev pub short_as_size : ℕ → ℕ
short_as_size n = if ltb (n % 2 ^ 16) (2 ^ 15) then n % 2 ^ 16 else n % 2 ^ 16 + (2 ^ 64 - 2 ^ 16)

-- short PacketSize = ( short ) after - contentStart, as its bit pattern.
abbrev pub packet_size : ℕ → ℕ → ℕ
packet_size after content_start = sub_size (short_as_size after) content_start % 2 ^ 16

-- The opcode, the size of the content, and the content, which is written first.
unfoldable pub write_packet : ℕ → Attached (Unit {0}) → Attached (Unit {0})
write_packet opcode write_impl = do
  before ← deref get_write_pos
  let content_start = add_size (add_size before 1) 2
  deref (move_write_pos content_start)
  write_impl
  after ← deref get_write_pos
  deref (move_write_pos before)
  deref (ByteBuffer.write_char opcode)
  deref (ByteBuffer.write_short (packet_size after content_start))
  deref (move_write_pos after)
