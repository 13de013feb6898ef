-- ===== src/Util/PacketHandler.antt =====
-- ReMoLON_Util/PacketHandler.h and ReMoLON_Util/src/PacketHandler.cpp.
-- A packet class is its opcode and its `readImpl`, a run over the program's own state `W`
-- and the packet's buffer that answers the packet. `char` is signed, as on x86-64.
pub mod Dispatch
use re_mo_lon.Common.{
  ℕ, ◌+◌, ◌-◌, ◌%◌, ◌^◌, ◌≡◌, Option, none, some, Bool, true, false, ltb, nat_beq, if◌then◌else◌,
  ◌&&◌,
}
use re_mo_lon.Common.Outcome.{
  Outcome, ok, throws, fault, Run, opcode_too_high, packet_too_big, unknown_opcode, ◌>>=◌, ◌>>◌,
  pure,
}
use re_mo_lon.Util.ByteBuffer.{
  ByteBuffer, Buf, read_char, read_short, compact, set_read_pos, get_remaining_read_size,
}
use re_mo_lon.Util.Packet.{Attached}

-- A `char` as an `unsigned int`: the sign bit is extended.
abbrev pub char_as_unsigned : ℕ → ℕ
char_as_unsigned c = if ltb c 128 then c else c + (2 ^ 32 - 256)

-- A run over the buffer alone.
abbrev pub on_buffer {ℓ μ} : {W : Type ℓ} {A : Type μ} → Run ByteBuffer A → Run (W × ByteBuffer) A
on_buffer m (w, b) = elim (m b) [
  | ok a b' ↦ ok a (w, b')
  | throws e b' ↦ throws e (w, b')
  | fault ↦ fault
]

module _ {ℓ κ} (W : Type ℓ) (P : Type κ) where
  abbrev pub Reader : Type (ℓ ⊔ κ)
  Reader = Run (W × Option ByteBuffer) P

  -- The 256 entries of `_packetFactories`.
  abbrev pub Factories : Type (ℓ ⊔ κ)
  Factories = ℕ → Option Reader

-- A `readImpl` that touches the buffer alone.
abbrev pub on_packet {ℓ} : {W : Type ℓ} {A : Type 0} → Attached A → Run (W × Option ByteBuffer) A
on_packet r (w, b) = elim (r b) [
  | ok a b' ↦ ok a (w, b')
  | throws e b' ↦ throws e (w, b')
  | fault ↦ fault
]

module _ {ℓ κ} {W : Type ℓ} {P : Type κ} where
  -- The constructor: 256 empty entries.
  abbrev pub no_factories : Factories W P
  no_factories _ = none

  abbrev pub updated : Factories W P → ℕ → Reader W P → Factories W P
  updated fs opcode r k = if nat_beq k opcode then some r else fs k

  -- registerPacketFactory
  unfoldable pub register_packet_factory : ℕ → Reader W P → Run (Factories W P) (Unit {0})
  register_packet_factory opcode r fs =
      if ltb (char_as_unsigned opcode) 256
      then ok tt (updated fs opcode r)
      else throws opcode_too_high fs

  -- createPacket, setBuffer, setConnection, readImpl. The buffer pointer is not null.
  abbrev pub read_with : Reader W P → Run (W × ByteBuffer) (Option P)
  read_with r (w, b) = elim (r (w, some b)) [
    | ok p (w', some b') ↦ ok (some p) (w', b')
    | ok p (w', none) ↦ fault
    | throws e (w', some b') ↦ throws e (w', b')
    | throws e (w', none) ↦ fault
    | fault ↦ fault
  ]

  -- `_packetFactories [ packetOpcode ]`: a negative `char` indexes outside the vector.
  unfoldable pub dispatch : Factories W P → ℕ → Run (W × ByteBuffer) (Option P)
  dispatch fs opcode s =
      if ltb opcode 128
      then elim (fs opcode) [ none ↦ throws unknown_opcode s | some r ↦ read_with r s ]
      else fault

  -- What follows the header: the size checks, then the dispatch.
  unfoldable pub handle_content : Factories W P → ℕ → ℕ → ℕ → Run (W × ByteBuffer) (Option P)
  handle_content fs begins opcode size (w, b) =
      if ltb b.size size && nat_beq begins 0
      then throws packet_too_big (w, b)
      else (if ltb (get_remaining_read_size b) size
          then (on_buffer compact >> pure none) (w, set_read_pos begins b)
          else dispatch fs opcode (w, b))

  -- Every round of the loop returns or throws, so there is one round at most.
  unfoldable pub handle_packet : Factories W P → Run (W × ByteBuffer) (Option P)
  handle_packet fs (w, b) =
      if ltb b.read b.used
      then (do
        opcode ← on_buffer read_char
        size ← on_buffer read_short
        handle_content fs b.read opcode size)
          (w, b)
      else ok none (w, b)
