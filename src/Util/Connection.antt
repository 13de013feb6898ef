-- ===== src/Util/Connection.antt =====
-- ReMoLON_Util/src/Connection.cpp: the queue of packets to send, and what the poll set waits for
-- on the socket. The mutex of the queue makes each method one step. Opening a socket is left out.
use re_mo_lon.Common.{
  ℕ, ◌≡◌, ◌≢◌, refl, List, [], ◌∷◌, ◌++◌, Option, none, some, Bool, true, false, ◌||◌, ◌&&◌, arith,
  not,
}
use re_mo_lon.Util.Packet.{Attached}

-- A `SendablePacket`, by its opcode and its `writeImpl`.
pub record Sendable : Type 0 where
  pub opcode : ℕ
  pub write_impl : Attached (Unit {0})

-- `polled` says that `_owningPollset` is not null, and `wants_write` that POLL_WRITE is in the set's
-- mask for the socket. `is_open` is the state of the socket.
pub record Connection : Type 0 where
  pub sock_fd : ℕ
  pub send_packets : List Sendable
  pub polled : Bool
  pub wants_write : Bool
  pub is_open : Bool

-- RawConnection, for the descriptor that its socket has.
abbrev pub raw_connection : ℕ → Connection
raw_connection fd = record {
  sock_fd = fd;
  send_packets = [];
  polled = false;
  wants_write = false;
  is_open = true;
}

abbrev pub set_poll_set_source : Connection → Connection
set_poll_set_source c = record c { polled = true }

unfoldable pub send_packet : Sendable → Connection → Connection
send_packet p c = record c {
  send_packets = c.send_packets ++ (p ∷ []);
  wants_write = c.polled || c.wants_write;
}

unfoldable pub poll_sendable_packet : Connection → Option Sendable × Connection
poll_sendable_packet c = elim c.send_packets [
  | [] ↦ (none, record c { wants_write = not c.polled && c.wants_write })
  | p ∷ later ↦ (some p, record c { send_packets = later })
]

unfoldable pub end_connection : Connection → Connection
end_connection c = record c { send_packets = []; is_open = false }

-- A packet in the queue of a polled connection is waited for.
abbrev pub IsAwaited : Connection → Type 0
IsAwaited c = c.polled ≡ true → c.send_packets ≢ [] → c.wants_write ≡ true

poll_sendable_packet-IsAwaited :
    (l : List Sendable) (c : Connection)
    → IsAwaited (record c { send_packets = l })
    → IsAwaited (poll_sendable_packet (record c { send_packets = l })).1
unfolding poll_sendable_packet
poll_sendable_packet-IsAwaited [] c h polled some_left = absurd (some_left refl)
poll_sendable_packet-IsAwaited (q ∷ l) c h polled some_left = h polled (λ e. cc)

-- Where the poll set waits to write on a polled connection that has packets queued, it still does
-- after a packet is queued, taken, or the connection is ended.
pub connection-IsAwaited :
    (p : Sendable) (c : Connection)
    → IsAwaited c
    → IsAwaited (send_packet p c)
      × IsAwaited (poll_sendable_packet c).1
      × IsAwaited (end_connection c)
unfolding send_packet end_connection
connection-IsAwaited p c h = (
  λ polled some_left. ground (arith, polled),
  poll_sendable_packet-IsAwaited c.send_packets c h,
  λ polled some_left. absurd (some_left refl),
)
