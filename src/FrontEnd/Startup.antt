-- ===== src/FrontEnd/Startup.antt =====
-- ReMoLON_FrontEnd/src/SessionManagerServer.cpp: the server that the nodes connect to, as the front
-- end starts it from its configuration file. REMOLON_NO_SSL_ is defined in its header, so this is the
-- branch without SSL. What the socket of Poco can be bound to, the time, and what stands in memory before a field is set, are arguments.
pub mod Accepts
use re_mo_lon.Common.{
  ℕ, ◌%◌, ◌^◌, ◌≡◌, refl, ◌∙◌, ◌⊎◌, inl, inr, List, [], ◌∷◌, Option, none, some, Bool, true, false,
}
use re_mo_lon.Common.Eq.{Text, codes}
use re_mo_lon.Common.Outcome.{
  Outcome, ok, throws, fault, Run, Error, invalid_argument, out_of_range, ◌>>=◌, ◌>>◌,
}
use re_mo_lon.Util.Config
use re_mo_lon.Util.Config.{Properties, Stoi, number, load, get_int_property}
use re_mo_lon.Util.Config.Ports.{stoi-cases, property, port_property}
use re_mo_lon.Util.PacketHandler.{
  Reader, Factories, no_factories, register_packet_factory, on_packet,
}
use re_mo_lon.Util.Server
use re_mo_lon.Util.Server.{Server, new_server}
use re_mo_lon.FrontEnd.Packets.{ConnectionRef, ClientPacket, read_start_result, read_close_result}
use re_mo_lon.FrontEnd.NodeManager.{NodeManager}
use re_mo_lon.FrontEnd.NodeInfo.{read_node_info, factories}

-- What `_server` points to: the server, and the factories of its packet handler.
pub record Listening : Type 0 where
  pub server : Server ClientPacket
  pub packet_factories : Factories NodeManager ClientPacket

abbrev pub SessionManagerServer : Type 0
SessionManagerServer = Option Listening

-- registerReceivablePacket, on the server behind the pointer.
unfoldable pub register_receivable_packet :
    ℕ → Reader NodeManager ClientPacket → Run SessionManagerServer (Unit {0})
register_receivable_packet opcode r none = fault
register_receivable_packet opcode r (some l) =
    elim (register_packet_factory opcode r l.packet_factories) [
      | ok _ fs ↦ ok tt (some (record l { packet_factories = fs }))
      | throws e fs ↦ throws e (some (record l { packet_factories = fs }))
      | fault ↦ fault
    ]

unfoldable pub on_server :
    Run (Server ClientPacket) (Unit {0}) → Run SessionManagerServer (Unit {0})
on_server m none = fault
on_server m (some l) = elim (m l.server) [
  | ok _ s ↦ ok tt (some (record l { server = s }))
  | throws e s ↦ throws e (some (record l { server = s }))
  | fault ↦ fault
]

module _ (bind : Text → ℕ → Bool) (now : ℕ) (junk_active junk_blocking : Bool) where
  abbrev pub make_server : Text → ℕ → Run SessionManagerServer (Unit {0})
  make_server address port _ = ok tt (
      some (record {
        server = new_server now junk_active junk_blocking address port;
        packet_factories = no_factories;
      }))

  -- A `NodeInfo` reads into the two junk numbers, from the connection it came over.
  module _ (junk_total junk_used : ℕ) (con : ConnectionRef) where
    unfoldable pub start : Option (List Text) → Run SessionManagerServer (Unit {0})
    start lines = do
      let cfg : Properties = load lines []
      let bind_to_address = property (codes "serverIPAddressBind") cfg
      bind_to_port ← port_property (codes "serverPortBind") cfg
      make_server bind_to_address bind_to_port
      register_receivable_packet 0x00 (read_node_info junk_total junk_used con)
      register_receivable_packet 0x01 (on_packet read_start_result)
      register_receivable_packet 0x02 (on_packet read_close_result)
      on_server (Server.start bind false)

unfoldable pub shut_down : Run SessionManagerServer (Unit {0})
shut_down = on_server (λ s. ok tt (Server.shut_down s))
