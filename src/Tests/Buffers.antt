-- ===== src/Tests/Buffers.antt =====
-- Byte buffers and packets.
use re_mo_lon.Common.{
  ℕ, ◌+◌, ◌<◌, ◌≤◌, ◌≡◌, refl, List, [], ◌∷◌, true, false, none, some, arith, take, ◌⊎◌,
}
use re_mo_lon.Common.Outcome.{ok, throws, fault, read_beyond_limit}
use re_mo_lon.Util.ByteBuffer.{ByteBuffer, bytes_8, append_content, resize}
use re_mo_lon.Util.ByteBuffer.Content.{IsValid, Appended, content}
use re_mo_lon.Util.ByteBuffer.Writes.{string_bytes}
use re_mo_lon.Util.ByteBuffer.Reads.{read_at}
use re_mo_lon.Util.ByteBuffer.Moves.{append_content_lem, resize_overflow}
use re_mo_lon.Util.Packet.{write_packet}
use re_mo_lon.Util.Packet.Fields.{write_string-Sends}
use re_mo_lon.Util.Packet.Framing.{frame, write_packet-Sends}
use re_mo_lon.Util.Packet
use re_mo_lon.Util.PacketHandler.{handle_packet}
use re_mo_lon.Util.PacketHandler.Dispatch.{
  handle_packet_part, handle_packet_no_size, handle_packet_negative,
}
use re_mo_lon.Node.Packets.{frontend_factories}
use re_mo_lon.Tests.Data.{empty, empty-IsValid, holding, ana}

-- A buffer with "ana" written as a string, of which nothing is read.
abbrev name_bytes : List ℕ
name_bytes = string_bytes ana

holding-IsValid : IsValid (holding name_bytes)
holding-IsValid = record {
  owned = refl;
  read_le = omega arith;
  used_le = omega arith;
  small = omega arith;
}

append_content_lem_example :
    ((0 + 5 < 48)
      × ((b' : ByteBuffer) × (append_content (holding name_bytes) empty ≡ ok true b')
          × Appended empty (take 5 name_bytes) b'))
    ⊎ ((48 ≤ 0 + 5) × (append_content (holding name_bytes) empty ≡ ok false empty))
append_content_lem_example =
    append_content_lem (holding name_bytes) empty holding-IsValid empty-IsValid

-- Two bytes of it are read.
abbrev half_read : ByteBuffer
half_read = read_at (holding name_bytes) 2

half_read-IsValid : IsValid half_read
half_read-IsValid = record {
  owned = refl;
  read_le = omega arith;
  used_le = omega arith;
  small = omega arith;
}

resize_overflow_example : resize (λ _. 170) 4 (holding name_bytes) ≡ fault
resize_overflow_example =
    resize_overflow (λ _. 170) 4 (holding name_bytes) holding-IsValid (omega arith) (omega arith)

abbrev long_bytes : List ℕ
long_bytes = bytes_8 1099511627777

write_packet-Sends_example :
    (b' : ByteBuffer) × (write_packet 1 (Packet.write_string ana) (some empty) ≡ ok tt (some b'))
    × Appended empty (frame 1 name_bytes) b'
write_packet-Sends_example =
    write_packet-Sends 1 (Packet.write_string ana) name_bytes (write_string-Sends ana (omega arith))
      empty empty-IsValid (omega arith)

-- The header of a packet of 5 bytes, with 2 of them.
abbrev part : List ℕ
part = 1 ∷ 5 ∷ 0 ∷ 3 ∷ 0 ∷ []

-- A buffer of which five bytes have been read, and then that part.
abbrev behind : ByteBuffer
behind = record { mem = 7 ∷ 7 ∷ 7 ∷ 7 ∷ 7 ∷ part; used = 10; read = 5; size = 10 }

behind-IsValid : IsValid behind
behind-IsValid = record {
  owned = refl;
  read_le = omega arith;
  used_le = omega arith;
  small = omega arith;
}

handle_packet_part_example :
    ((5 ≤ behind.read)
      × (b' : ByteBuffer) × (handle_packet frontend_factories (tt, behind) ≡ ok none (tt, b'))
      × IsValid b'
      × (b'.read ≡ 0)
      × (b'.size ≡ behind.size)
      × (content b' ≡ content behind))
    ⊎ ((behind.read < 5) × (handle_packet frontend_factories (tt, behind) ≡ fault))
handle_packet_part_example =
    handle_packet_part frontend_factories tt behind behind-IsValid 1 5 (3 ∷ 0 ∷ []) (omega arith)
      (omega arith) (omega arith) refl (omega arith)

abbrev lone : List ℕ
lone = 1 ∷ 5 ∷ []

lone-IsValid : IsValid (holding lone)
lone-IsValid = record {
  owned = refl;
  read_le = omega arith;
  used_le = omega arith;
  small = omega arith;
}

handle_packet_no_size_example :
    handle_packet frontend_factories (tt, holding lone)
    ≡ throws read_beyond_limit (tt, read_at (holding lone) (0 + 1))
handle_packet_no_size_example =
    handle_packet_no_size frontend_factories tt (holding lone) lone-IsValid 1 (5 ∷ []) (omega arith)
      refl (omega arith)

abbrev high : List ℕ
high = frame 200 []

high-IsValid : IsValid (holding high)
high-IsValid = record {
  owned = refl;
  read_le = omega arith;
  used_le = omega arith;
  small = omega arith;
}

handle_packet_negative_example : handle_packet frontend_factories (tt, holding high) ≡ fault
handle_packet_negative_example =
    handle_packet_negative frontend_factories tt (holding high) high-IsValid 200 [] [] (omega arith)
      (omega arith) (omega arith) refl
