-- ===== src/Tests/Util.antt =====
-- Configuration files, connections and selectors.
use re_mo_lon.Common.{
  ℕ, ◌+◌, ◌≡◌, refl, List, [], ◌∷◌, ◌++◌, Bool, true, false, Option, none, some, arith,
}
use re_mo_lon.Common.Eq.{Text, text_eq}
use re_mo_lon.Common.Assoc.{find}
use re_mo_lon.Common.Outcome.{ok}
use re_mo_lon.Util.ByteBuffer.Writes.{string_bytes}
use re_mo_lon.Util.Packet
use re_mo_lon.Util.Packet.Fields.{write_string-Sends}
use re_mo_lon.Util.Config.{Properties, load, get_property_list}
use re_mo_lon.Util.Config.Fields.{fields_of, join, get_property_list_lem, fields_of-join}
use re_mo_lon.Util.Config.Lines.{print, load-print}
use re_mo_lon.Util.Connection.{
  Sendable, Connection, send_packet, poll_sendable_packet, end_connection, IsAwaited,
  connection-IsAwaited,
}
use re_mo_lon.Util.SelectorThread.{Writer, write_to_connection}
use re_mo_lon.Util.SelectorThread.Writing.{concat}
use re_mo_lon.Util.SelectorThread.Draining.{Packets, frames_of, drained, write_to_connection_lem}
use re_mo_lon.Tests.Data.{empty, empty-IsValid, ana, s1}

-- "k" and "80,81"
abbrev k : Text
k = 107 ∷ []

abbrev ports : Text
ports = 56 ∷ 48 ∷ 44 ∷ 56 ∷ 49 ∷ []

abbrev properties : Properties
properties = (k, ports) ∷ (ana, s1) ∷ []

get_property_list_lem_example :
    get_property_list k (44 ∷ []) properties ≡ elim (find k properties) as (λ _. List Text) [
      | none ↦ []
      | some content ↦ fields_of (44 ∷ []) content
    ]
get_property_list_lem_example = get_property_list_lem k (44 ∷ []) properties

fields_of-join_example : fields_of (44 ∷ []) (join 44 (ana ∷ s1 ∷ [])) ≡ ana ∷ s1 ∷ []
fields_of-join_example =
    fields_of-join (44 ∷ []) 44 ana (s1 ∷ []) refl
      ((refl, (refl, (refl, tt))), ((refl, (refl, tt)), tt))

-- "k = 80"
load-print_example : load (some (print properties)) [] ≡ properties
unfolding re_mo_lon.Common.Eq.text_beq
load-print_example =
    load-print properties
      (
        ((refl, tt), (refl, tt), refl, (refl, (refl, (refl, (refl, (refl, tt)))))),
        (((refl, (refl, (refl, tt))), (refl, (refl, (refl, tt))), refl, (refl, (refl, tt))), tt),
      )
      ((refl, tt), (tt, tt))

abbrev packet : Sendable
packet = record { opcode = 1; write_impl = Packet.write_string ana }

abbrev connection : Connection
connection = record {
  sock_fd = 4;
  send_packets = packet ∷ packet ∷ [];
  polled = true;
  wants_write = true;
  is_open = true;
}

connection-IsAwaited_example :
    IsAwaited (send_packet packet connection)
    × IsAwaited (poll_sendable_packet connection).1
    × IsAwaited (end_connection connection)
connection-IsAwaited_example = connection-IsAwaited packet connection (λ p s. refl)

abbrev items : Packets
items = (packet, string_bytes ana) ∷ (packet, string_bytes ana) ∷ []

abbrev writer : Writer
writer = record { write_buffer = empty; write_buffer_helper = empty; sent = [] }

write_to_connection_lem_example :
    (w' : Writer) × (write_to_connection connection writer ≡ ok (drained connection) w')
    × (concat w'.sent ≡ frames_of items)
write_to_connection_lem_example =
    let sends = write_string-Sends ana (omega arith) in
    write_to_connection_lem items connection writer empty-IsValid empty-IsValid
      (sends, omega arith, omega arith, (sends, omega arith, omega arith, tt)) refl
