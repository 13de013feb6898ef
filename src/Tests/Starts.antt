-- ===== src/Tests/Starts.antt =====
-- The start of a node and of a session.
use re_mo_lon.Common.{
  Bool, ℕ, ◌%◌, ◌^◌, ◌≡◌, ◌⊎◌, refl, List, [], ◌∷◌, ◌++◌, Option, true, false, none, some, arith,
}
use re_mo_lon.Common.Eq.{Text, c_str, text_eq, nat_eq, codes}
use re_mo_lon.Common.Decimal.{to_string}
use re_mo_lon.Common.Outcome.{Outcome, ok, throws, socket_error, invalid_argument, out_of_range}
use re_mo_lon.Util.Connection.{raw_connection}
use re_mo_lon.Util.Client.{Client}
use re_mo_lon.Util.Client.Opening.{Unconnected}
use re_mo_lon.Util.Server.{Server, accept_loop}
use re_mo_lon.Util.Server.Accepting.{entries, all_accepted}
use re_mo_lon.Node.Packets.{FrontendRequest, RemotooAnswer}
use re_mo_lon.Util.Config
use re_mo_lon.Util.Config.{Properties, number, load, get_int_property}
use re_mo_lon.Node.SessionManager.{SessionManager, StreamingSession, new_session}
use re_mo_lon.Util.Config.Ports.{property}
use re_mo_lon.Node.Setup.{Node, configure, initialize}
use re_mo_lon.Node.Setup.Ports.{Given, free, configure_lem}
use re_mo_lon.Node.Setup.Start.{Says, ready, initialize_lem}
use re_mo_lon.Node.Launch.{Homes, Exec, launch_child, writer_main, writes, xinitrc}
use re_mo_lon.Node.Launch.Xinitrc.{launch_child-Writes}
use re_mo_lon.FrontEnd.Packets.{ConnectionRef}
use re_mo_lon.FrontEnd.NodeInfo.{factories}
use re_mo_lon.FrontEnd.Startup.{Listening, SessionManagerServer, start}
use re_mo_lon.FrontEnd.Startup.Accepts.{IsListening, start_lem}
use re_mo_lon.Tests.Data.{ana, s1}

abbrev cfg : Properties
cfg =
    (codes "publicAddress", codes "h")
    ∷ (codes "availableWebPorts", codes "8001,8002")
    ∷ (codes "availableWebSockPorts", codes "9001")
    ∷ (codes "availableWebRtcPorts", codes "9501")
    ∷ []

abbrev manager : SessionManager
manager = record {
  public_address = [];
  used_ports = [];
  used_sock_ports = [];
  used_rtc_ports = [];
  stream_sessions = [];
}

web-Given : Given (codes "availableWebPorts") (8001 ∷ 8002 ∷ []) cfg
unfolding re_mo_lon.Common.Assoc.find re_mo_lon.Common.Eq.text_beq re_mo_lon.Common.Decimal.digits
web-Given = record {
  first = 8001;
  others = 8002 ∷ [];
  some_ports = refl;
  listed = refl;
  small = (omega arith, (omega arith, tt));
  distinct = ((refl, tt), (tt, tt));
}

sock-Given : Given (codes "availableWebSockPorts") (9001 ∷ []) cfg
unfolding re_mo_lon.Common.Assoc.find re_mo_lon.Common.Eq.text_beq re_mo_lon.Common.Decimal.digits
sock-Given = record {
  first = 9001;
  others = [];
  some_ports = refl;
  listed = refl;
  small = (omega arith, tt);
  distinct = (tt, tt);
}

rtc-Given : Given (codes "availableWebRtcPorts") (9501 ∷ []) cfg
unfolding re_mo_lon.Common.Assoc.find re_mo_lon.Common.Eq.text_beq re_mo_lon.Common.Decimal.digits
rtc-Given = record {
  first = 9501;
  others = [];
  some_ports = refl;
  listed = refl;
  small = (omega arith, tt);
  distinct = (tt, tt);
}

configure_lem_example : configure cfg manager ≡ record manager {
  public_address = property (codes "publicAddress") cfg;
  used_ports = free (8001 ∷ 8002 ∷ []);
  used_sock_ports = free (9001 ∷ []);
  used_rtc_ports = free (9501 ∷ []);
}
configure_lem_example =
    configure_lem cfg (8001 ∷ 8002 ∷ []) (9001 ∷ []) (9501 ∷ []) manager web-Given sock-Given
      rtc-Given refl refl refl

abbrev node : Node
node = record {
  remotoo_bin_dir = codes "/opt";
  remolon_xinitrc_dir = codes "/opt/bin";
  client = none;
  server = none;
  manager = manager;
}

abbrev lines : Option (List Text)
lines = some (
    codes "frontendServerAddress = f"
    ∷ codes "frontendServerPort = 7000"
    ∷ codes "innerServerAddress = i"
    ∷ codes "innerServerPort = 7001"
    ∷ codes "availableWebPorts = 8001,8002"
    ∷ codes "availableWebSockPorts = 9001"
    ∷ codes "availableWebRtcPorts = 9501"
    ∷ [])

-- A front end that takes every connection.
abbrev takes_all : Text → ℕ → Option ℕ
takes_all address port = some 3

lines-Says : Says (load lines []) 7000 7001 (8001 ∷ 8002 ∷ []) (9001 ∷ []) (9501 ∷ [])
unfolding Config.load_stripped Config.remove_white_spaces Config.find_first_of Config.first_of
    re_mo_lon.Common.Assoc.find re_mo_lon.Common.Assoc.assign re_mo_lon.Common.Eq.text_beq
    re_mo_lon.Common.Decimal.digits
lines-Says = record {
  frontend = refl;
  inner = refl;
  small = omega arith;
  inner_small = omega arith;
  web_ports = record {
    first = 8001;
    others = 8002 ∷ [];
    some_ports = refl;
    listed = refl;
    small = (omega arith, (omega arith, tt));
    distinct = ((refl, tt), (tt, tt));
  };
  sock_ports = record {
    first = 9001;
    others = [];
    some_ports = refl;
    listed = refl;
    small = (omega arith, tt);
    distinct = (tt, tt);
  };
  rtc_ports = record {
    first = 9501;
    others = [];
    some_ports = refl;
    listed = refl;
    small = (omega arith, tt);
    distinct = (tt, tt);
  };
}

abbrev started : Outcome Node (Unit {0})
started = initialize takes_all (λ i. 0) (λ i. 0) 5 false true lines node

initialize_lem_example :
    let cfg = load lines [] in
    ((takes_all (property (codes "frontendServerAddress") cfg) 7000 ≡ none)
      × (n' : Node) × (started ≡ throws socket_error n')
      × (n'.server ≡ none)
      × (n'.manager ≡ manager))
    ⊎ ((fd : ℕ) × (u : Unconnected) × (c : Client FrontendRequest) × (s : Server RemotooAnswer)
        × (n' : Node) × (takes_all (property (codes "frontendServerAddress") cfg) 7000 ≡ some fd)
        × (started ≡ ok tt n')
        × (n'.remotoo_bin_dir ≡ property (codes "remotooBinaryDir") cfg)
        × (n'.remolon_xinitrc_dir ≡ property (codes "remolonXinitrcDir") cfg)
        × (n'.client ≡ some (u, some c))
        × (c.active ≡ true)
        × (c.connection ≡ raw_connection fd)
        × (n'.server ≡ some s)
        × (s.bind_ip_address ≡ property (codes "innerServerAddress") cfg)
        × (s.bind_port ≡ 7001)
        × (s.selector_workers ≡ [])
        × (n'.manager ≡ ready cfg (8001 ∷ 8002 ∷ []) (9001 ∷ []) (9501 ∷ []) manager))
initialize_lem_example =
    initialize_lem takes_all (λ i. 0) (λ i. 0) 5 false true lines node 7000 7001 (8001 ∷ 8002 ∷ [])
      (9001 ∷ []) (9501 ∷ []) lines-Says refl refl refl

abbrev session : StreamingSession
session = new_session s1 ana (codes "10.0.0.9") 8001 9001 9501

abbrev homes : Homes
homes name = some (codes "/home/ana")

-- A sudo that runs any command.
abbrev sudo : List Text → Option (List Text)
sudo (name ∷ flag ∷ user ∷ command) = some command
sudo _ = none

launch_child-Writes_example :
    (x : Exec) × (argv : List Text) × (launch_child homes node session ≡ some x)
    × (sudo x.argv ≡ some argv)
    × (writer_main homes argv
        ≡ writes (c_str (codes "/home/ana") ++ codes "/.xinitrc") (
            xinitrc
              (c_str node.remotoo_bin_dir)
              (c_str s1)
              (c_str ana)
              (c_str (codes "10.0.0.9"))
              (to_string 8001)
              (to_string 9001)
              (to_string 9501)))
launch_child-Writes_example =
    launch_child-Writes homes sudo node session (codes "/home/ana") 47 (codes "opt/bin")
      (λ user command args. refl) refl refl (omega arith)

abbrev con : ConnectionRef
con = record { id = 0; client_address = [] }

abbrev server_lines : Option (List Text)
server_lines = some (codes "serverIPAddressBind = 0.0.0.0" ∷ codes "serverPortBind = 7000" ∷ [])

-- Every address can be bound.
abbrev binds_all : Text → ℕ → Bool
binds_all address port = true

abbrev server_started : Outcome SessionManagerServer (Unit {0})
server_started = start binds_all 5 false true 9 9 con server_lines none

start_lem_example :
    let cfg = load server_lines [] in
    let address = property (codes "serverIPAddressBind") cfg in
    ((get_int_property (codes "serverPortBind") 0 cfg ≡ Config.invalid_argument)
      × (server_started ≡ throws invalid_argument none))
    ⊎ ((get_int_property (codes "serverPortBind") 0 cfg ≡ Config.out_of_range)
        × (server_started ≡ throws out_of_range none))
    ⊎ ((v : ℕ) × (l : Listening) × (get_int_property (codes "serverPortBind") 0 cfg ≡ number v)
        × (binds_all address (v % 2 ^ 16) ≡ false)
        × (server_started ≡ throws socket_error (some l))
        × (l.server.selector_workers ≡ []))
    ⊎ ((v : ℕ) × (l : Listening) × (get_int_property (codes "serverPortBind") 0 cfg ≡ number v)
        × (binds_all address (v % 2 ^ 16) ≡ true)
        × (server_started ≡ ok tt (some l))
        × IsListening address (v % 2 ^ 16) l.server
        × (l.packet_factories ≡ factories 9 9 con)
        × (accept_loop (all_accepted (5 ∷ 6 ∷ [])) l.server
            ≡ record l.server { selector_workers = entries (5 ∷ 6 ∷ []) ∷ [] }))
start_lem_example =
    start_lem binds_all 5 false true 9 9 con server_lines none (5 ∷ 6 ∷ []) ((refl, tt), (tt, tt))
      (omega arith)
