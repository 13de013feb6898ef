-- ===== src/Node/Setup.antt =====
-- ReMoLON/include/Node.h and ReMoLON/src/Node.cpp: how a node starts from its configuration file,
-- whose lines are an argument. A `std::uint16_t` is its value below 2 ^ 16.
pub mod Ports
pub mod Start
use re_mo_lon.Common.{ℕ, ◌+◌, ◌%◌, ◌^◌, List, [], ◌∷◌, Option, none, some, Bool, true, false}
use re_mo_lon.Common.Eq.{Text, codes}
use re_mo_lon.Common.Outcome.{
  ok, throws, fault, socket_error, Run, invalid_argument, out_of_range, ◌>>=◌, ◌>>◌, pure,
}
use re_mo_lon.Util.Client.{Client, close}
use re_mo_lon.Util.Client.Opening.{Unconnected, new_client, connect}
use re_mo_lon.Util.Server
use re_mo_lon.Util.Server.{Server, new_server}
use re_mo_lon.Node.Packets.{FrontendRequest, RemotooAnswer}
use re_mo_lon.Util.Config
use re_mo_lon.Util.Config.{
  Properties, Stoi, number, load, get_property, get_property_list, get_int_property, stoi,
}
use re_mo_lon.Util.Config.Ports.{property, port_property}
use re_mo_lon.Node.SessionManager.{
  SessionManager, set_public_address, add_available_port, add_available_socket_port,
  add_available_rtc_port,
}

-- A client object, and its connection once `connect` has made it. The manager is the singleton of its
-- class. The packets that the two register are `frontend_factories` and `remotoo_factories`.
pub record Node : Type 0 where
  pub remotoo_bin_dir : Text
  pub remolon_xinitrc_dir : Text
  pub client : Option (Unconnected × Option (Client FrontendRequest))
  pub server : Option (Server RemotooAnswer)
  pub manager : SessionManager

abbrev pub get_remotoo_binary_dir : Node → Text
get_remotoo_binary_dir n = n.remotoo_bin_dir

abbrev pub get_remolon_xinitrc_binary_dir : Node → Text
get_remolon_xinitrc_binary_dir n = n.remolon_xinitrc_dir

-- Each of the three loops over a list of ports, by the method that it calls: what `std::stoi` throws
-- for a field is caught, and the loop goes on.
unfoldable pub add_ports :
    (ℕ → SessionManager → SessionManager) → List Text → SessionManager → SessionManager
add_ports add [] m = m
add_ports add (str ∷ fields) m = elim (stoi str) [
  | number v ↦ add_ports add fields (add (v % 2 ^ 16) m)
  | Config.invalid_argument ↦ add_ports add fields m
  | Config.out_of_range ↦ add_ports add fields m
]

-- The streaming configuration.
unfoldable pub configure : Properties → SessionManager → SessionManager
configure cfg m =
    let m0 = set_public_address (property (codes "publicAddress") cfg) m in
    let m1 =
      add_ports add_available_port (get_property_list (codes "availableWebPorts") (codes ",") cfg)
        m0 in
    let m2 =
      add_ports add_available_socket_port
        (get_property_list (codes "availableWebSockPorts") (codes ",") cfg) m1 in
    add_ports add_available_rtc_port
      (get_property_list (codes "availableWebRtcPorts") (codes ",") cfg) m2

abbrev pub update : (Node → Node) → Run Node (Unit {0})
update f n = ok tt (f n)

abbrev pub with_dirs : Properties → Node → Node
with_dirs cfg n = record n {
  remotoo_bin_dir = property (codes "remotooBinaryDir") cfg;
  remolon_xinitrc_dir = property (codes "remolonXinitrcDir") cfg;
}

abbrev pub with_server : Server RemotooAnswer → Node → Node
with_server server n = record n { server = some server }

abbrev pub with_configuration : Properties → Node → Node
with_configuration cfg n = record n { manager = configure cfg n.manager }

-- `open_socket` is the stream socket of Poco, and what fresh memory holds is an argument.
module _ (open_socket : Text → ℕ → Option ℕ) (junk_recv junk_send : ℕ → ℕ) where
  -- A new client, and its `connect`.
  unfoldable pub make_client : Text → ℕ → Run Node (Unit {0})
  make_client address port n = elim (new_client junk_recv junk_send address port) [
    | none ↦ fault
    | some u ↦
        let (u', c) = connect open_socket u in
        let n' : Node = record n { client = some (u', c) } in
        elim c [ none ↦ throws socket_error n' | some _ ↦ ok tt n' ]
  ]

  module _ (now : ℕ) (junk_active junk_blocking : Bool) where
    unfoldable pub initialize : Option (List Text) → Run Node (Unit {0})
    initialize lines = do
      let cfg : Properties = load lines []
      update (with_dirs cfg)
      frontend_port ← port_property (codes "frontendServerPort") cfg
      make_client (property (codes "frontendServerAddress") cfg) frontend_port
      bind_port ← port_property (codes "innerServerPort") cfg
      update (
          with_server (
            new_server now junk_active junk_blocking (property (codes "innerServerAddress") cfg)
              bind_port))
      update (with_configuration cfg)

-- Each pointer is followed without a test.
unfoldable pub shut_down : Run Node (Unit {0})
shut_down n = elim n.client [
  | none ↦ fault
  | some (u, none) ↦ fault
  | some (u, some c) ↦ elim n.server [
    | none ↦ fault
    | some s ↦
        ok tt (record n { client = some (u, some (close c)); server = some (Server.shut_down s) })
  ]
]
