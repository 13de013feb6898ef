-- ===== src/Util/Client/Opening.antt =====
-- ReMoLON_Util/src/Client.cpp: a client before `connect` and after it. `open_socket` stands for the
-- stream socket of Poco that the connection opens: the descriptor that it gets, or none where it
-- throws. What fresh memory holds is an argument.
use re_mo_lon.Common.{
  ℕ, ◌+◌, ◌<◌, ◌≡◌, refl, List, [], ◌∷◌, Option, none, some, Bool, true, false, arith, length,
}
use re_mo_lon.Common.Eq.{Text}
use re_mo_lon.Common.Outcome.{ok, throws, fault}
use re_mo_lon.Util.ByteBuffer.{ByteBuffer, unallocated, new_buffer, default_buffer}
use re_mo_lon.Util.ByteBuffer.Content.{IsValid}
use re_mo_lon.Util.ByteBuffer.Moves.{resize-keeps}
use re_mo_lon.Util.Packet.Fields.{Sends}
use re_mo_lon.Util.Packet.Framing.{frame}
use re_mo_lon.Util.Connection.{Sendable, raw_connection, send_packet}
use re_mo_lon.Util.Client.{Client, queue_packet, send_loop}
use re_mo_lon.Util.Client.Sending.{send_loop_lem}

-- `_connection` is null.
pub record Unconnected : Type 0 where
  pub active : Bool
  pub connect_address : Text
  pub connect_port : ℕ
  pub recv_buffer : ByteBuffer
  pub send_buffer : ByteBuffer

unfoldable pub made : (ℕ → ℕ) → Option ByteBuffer
made junk = elim (default_buffer junk) [ ok _ b ↦ some b | throws _ _ ↦ none | fault ↦ none ]

-- The constructor: the buffers are made by theirs.
unfoldable pub new_client : (ℕ → ℕ) → (ℕ → ℕ) → Text → ℕ → Option Unconnected
new_client junk_recv junk_send address port = elim (made junk_send) [
  | none ↦ none
  | some s ↦ elim (made junk_recv) [
    | none ↦ none
    | some r ↦ some (record {
      active = false;
      connect_address = address;
      connect_port = port;
      recv_buffer = r;
      send_buffer = s;
    })
  ]
]

module _ {P : Type 0} (open_socket : Text → ℕ → Option ℕ) where
  -- connect, with the initializeConnection of a RawClient. Where that throws, the client stays
  -- active and without a connection.
  unfoldable pub connect : Unconnected → Unconnected × Option (Client P)
  connect u = elim (open_socket u.connect_address u.connect_port) [
    | none ↦ (record u { active = true }, none)
    | some fd ↦ (
      record u { active = true },
      some (record {
        active = true;
        connection = raw_connection fd;
        recv_buffer = u.recv_buffer;
        send_buffer = u.send_buffer;
        exec_queue = [];
        sent = [];
      }),
    )
  ]

default_buffer_lem :
    (junk : ℕ → ℕ)
    → (b : ByteBuffer) × (default_buffer junk ≡ ok tt b) × IsValid b × (b.size ≡ 65535)
unfolding default_buffer new_buffer
default_buffer_lem junk =
    let (b, e, v, size_same, _, _, _) =
      resize-keeps junk 65535 unallocated
        (record { owned = refl; read_le = omega arith; used_le = omega arith; small = omega arith })
        (omega arith) (omega arith) (omega arith) in
    (b, e, v, size_same)

pub made_lem :
    (junk : ℕ → ℕ) → (b : ByteBuffer) × (made junk ≡ some b) × IsValid b × (b.size ≡ 65535)
unfolding made
made_lem junk =
    let (b, e, v, size_same) = default_buffer_lem junk in (b, rw (made, e) refl, v, size_same)

-- A new client for a server that accepts it sends the first packet that it is given as one frame.
pub first_packet_lem :
    {P : Type 0} (open_socket : Text → ℕ → Option ℕ) (junk_recv junk_send : ℕ → ℕ) (address : Text)
    (port fd : ℕ) (p : Sendable) (bs : List ℕ)
    → open_socket address port ≡ some fd
    → Sends p.write_impl bs
    → length bs + 3 < 65535
    → (u : Unconnected) × (c : Client P) × (c' : Client P) × (new_client junk_recv junk_send address
          port
        ≡ some u)
      × ((connect open_socket u).1 ≡ some c)
      × (send_loop 2 (queue_packet p c) ≡ ok tt c')
      × (c'.sent ≡ frame p.opcode bs ∷ [])
unfolding new_client connect send_packet
first_packet_lem {P} open_socket junk_recv junk_send address port fd p bs opens sends room =
    let (r, er, _, _) = made_lem junk_recv in
    let (s, es, vs, size_same) = made_lem junk_send in
    let u : Unconnected = record {
      active = false;
      connect_address = address;
      connect_port = port;
      recv_buffer = r;
      send_buffer = s;
    } in
    let c : Client P = record {
      active = true;
      connection = raw_connection fd;
      recv_buffer = r;
      send_buffer = s;
      exec_queue = [];
      sent = [];
    } in
    let ready : Client P = record c {
      connection = record (raw_connection fd) { send_packets = [] };
    } in
    let (b, e, _) =
      send_loop_lem ((p, bs) ∷ []) 2 65535 (raw_connection fd) ready refl (omega arith) vs size_same
        (sends, omega (arith, room), tt) in
    (u, c, _, rw (new_client, es, er) refl, rw (connect, opens) refl, e, refl)
