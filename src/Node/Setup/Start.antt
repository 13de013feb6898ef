-- ===== src/Node/Setup/Start.antt =====
-- A node that has read its configuration can serve sessions.
use re_mo_lon.Common.{
  ℕ, ◌%◌, ◌^◌, ◌<◌, ◌≡◌, refl, sym, ap, ◌∙◌, some, Bool, Option-cases, ◌⊎◌, inl, inr, List, [], ◌∷◌,
  Option, none, true, false, arith,
}
use re_mo_lon.Common.Eq.{Text, text_eq, nat_eq, codes}
use re_mo_lon.Common.Assoc.{find, Distinct, assign-Distinct}
use re_mo_lon.Common.Decimal.{to_string}
use re_mo_lon.Common.Decimal.{to_string_lem}
use re_mo_lon.Common.Outcome.{Outcome, ok, throws, fault, socket_error, ◌>>=◌}
use re_mo_lon.Util.Config.Numbers.{stoi-to_string}
use re_mo_lon.Util.Connection.{raw_connection}
use re_mo_lon.Util.Client.{Client}
use re_mo_lon.Util.Client.Opening.{Unconnected, new_client, connect, made_lem}
use re_mo_lon.Util.Server.{Server, new_server}
use re_mo_lon.Node.Packets.{FrontendRequest, RemotooAnswer}
use re_mo_lon.Node.Setup.Ports.{Given, free, configure_lem}
use re_mo_lon.Util.Config.{
  Properties, Stoi, number, load, stoi, get_property_list, get_property, get_int_property,
}
use re_mo_lon.Node.SessionManager.{
  StreamingSession, SessionManager, SessionLists, PortTable, set_public_address, add_available_port,
  add_available_socket_port, add_available_rtc_port,
}
use re_mo_lon.Node.SessionManager.Sessions.{session_at}
use re_mo_lon.Node.SessionManager.Ports.{Taken}
use re_mo_lon.Node.SessionManager.Invariant.{Inv}
use re_mo_lon.Util.Config.Ports.{stoi-cases, property, as_port, port_property}
use re_mo_lon.Node.Setup.{
  Node, add_ports, configure, with_dirs, with_server, with_configuration, make_client, initialize,
}

-- No session, and no port twice in a table.
pub record IsFresh (m : SessionManager) : Type 0 where
  pub no_sessions : m.stream_sessions ≡ []
  pub keyed : Distinct m.used_ports
  pub sock_keyed : Distinct m.used_sock_ports
  pub rtc_keyed : Distinct m.used_rtc_ports

add_ports-IsFresh :
    (add : ℕ → SessionManager → SessionManager)
    → ((p : ℕ) (m : SessionManager) → IsFresh m → IsFresh (add p m))
    → (fields : List Text) (m : SessionManager) → IsFresh m
    → IsFresh (add_ports add fields m)
unfolding add_ports
add_ports-IsFresh add keeps [] m f = f
add_ports-IsFresh add keeps (str ∷ fields) m f = elim (stoi-cases (stoi str)) [
  | inl (v, e) ↦ rw (add_ports, e) (add_ports-IsFresh add keeps fields _ (keeps (v % 2 ^ 16) m f))
  | inr (inl e) ↦ rw (add_ports, e) (add_ports-IsFresh add keeps fields m f)
  | inr (inr e) ↦ rw (add_ports, e) (add_ports-IsFresh add keeps fields m f)
]

configure-IsFresh : (cfg : Properties) (m : SessionManager) → IsFresh m → IsFresh (configure cfg m)
unfolding configure
configure-IsFresh cfg m f =
    let web = get_property_list (codes "availableWebPorts") (codes ",") cfg in
    let sock = get_property_list (codes "availableWebSockPorts") (codes ",") cfg in
    let rtc = get_property_list (codes "availableWebRtcPorts") (codes ",") cfg in
    let f0 : IsFresh (set_public_address (property (codes "publicAddress") cfg) m) = record {
      no_sessions = f.no_sessions;
      keyed = f.keyed;
      sock_keyed = f.sock_keyed;
      rtc_keyed = f.rtc_keyed;
    } in
    add_ports-IsFresh add_available_rtc_port
      (λ p k g. record {
        no_sessions = g.no_sessions;
        keyed = g.keyed;
        sock_keyed = g.sock_keyed;
        rtc_keyed = assign-Distinct p false k.used_rtc_ports g.rtc_keyed;
      })
      rtc _
      (add_ports-IsFresh add_available_socket_port
        (λ p k g. record {
          no_sessions = g.no_sessions;
          keyed = g.keyed;
          sock_keyed = assign-Distinct p false k.used_sock_ports g.sock_keyed;
          rtc_keyed = g.rtc_keyed;
        })
        sock _
        (add_ports-IsFresh add_available_port
          (λ p k g. record {
            no_sessions = g.no_sessions;
            keyed = assign-Distinct p false k.used_ports g.keyed;
            sock_keyed = g.sock_keyed;
            rtc_keyed = g.rtc_keyed;
          })
          web _ f0))

empty_session_at : (o n : Text) (lists : SessionLists) → lists ≡ [] → session_at o n lists ≡ none
unfolding session_at find
empty_session_at o n lists e = rw (session_at, e) refl

nothing-Taken :
    (port : StreamingSession → ℕ) (table : PortTable) (lists : SessionLists)
    → ((o n : Text) → session_at o n lists ≡ none)
    → Taken port table lists
nothing-Taken port table lists nowhere = record {
  held = λ o n s e. absurd (ground (arith, nowhere o n, e));
  alone = λ o n o' n' s s' e e' p. absurd (ground (arith, nowhere o n, e));
}

IsFresh-Inv : (m : SessionManager) → IsFresh m → Inv m
IsFresh-Inv m f =
    let nowhere : (o n : Text) → session_at o n m.stream_sessions ≡ none =
      λ o n. empty_session_at o n m.stream_sessions f.no_sessions in
    record {
      ports = nothing-Taken (λ s. s.session_port) m.used_ports m.stream_sessions nowhere;
      sock_ports =
          nothing-Taken (λ s. s.session_sock_port) m.used_sock_ports m.stream_sessions nowhere;
      rtc_ports =
          nothing-Taken (λ s. s.session_rtc_port) m.used_rtc_ports m.stream_sessions nowhere;
      named = λ o n s e. absurd (ground (arith, nowhere o n, e));
      keyed = f.keyed;
      sock_keyed = f.sock_keyed;
      rtc_keyed = f.rtc_keyed;
    }

-- A manager without sessions, in whose tables no port stands twice, has its invariant after any
-- configuration.
pub configure-Inv : (cfg : Properties) (m : SessionManager) → IsFresh m → Inv (configure cfg m)
configure-Inv cfg m f = IsFresh-Inv _ (configure-IsFresh cfg m f)

-- A property that is a port in base 10 is read as that port.
port_property-to_string :
    {S : Type 0} (key : Text) (port : ℕ) (cfg : Properties) (s : S)
    → find key cfg ≡ some (to_string port)
    → port < 2 ^ 16
    → port_property key cfg s ≡ ok port s
unfolding port_property get_int_property get_property
port_property-to_string key port cfg s e small =
    let (c, t, digits, _, _) = to_string_lem port in
    let given : find key cfg ≡ some (c ∷ t) = e ∙ ap some digits in
    let same : port % 2 ^ 16 ≡ port = omega arith in
    let got : get_property key [] cfg ≡ c ∷ t =
      ap (λ o. elim o as (λ _. Text) [ none ↦ [] | some v ↦ v ]) given in
    let read : get_int_property key 0 cfg ≡ number port =
      ap (λ x. elim x as (λ _. Stoi) [ [] ↦ number 0 | d ∷ r ↦ stoi (d ∷ r) ]) got
      ∙ ap stoi (sym digits)
      ∙ stoi-to_string port (omega (arith, small)) in
    ap (λ r. as_port r s) read ∙ ap (λ k. ok k s) same

-- The client on its new socket.
abbrev pub connected : ℕ → Unconnected → Client FrontendRequest
connected fd u = record {
  active = true;
  connection = raw_connection fd;
  recv_buffer = u.recv_buffer;
  send_buffer = u.send_buffer;
  exec_queue = [];
  sent = [];
}

-- What the configuration file says.
pub record Says (cfg : Properties) (frontend_port bind_port : ℕ) (web sock rtc : List ℕ)
    : Type 0 where
  pub frontend : find (codes "frontendServerPort") cfg ≡ some (to_string frontend_port)
  pub inner : find (codes "innerServerPort") cfg ≡ some (to_string bind_port)
  pub small : frontend_port < 2 ^ 16
  pub inner_small : bind_port < 2 ^ 16
  pub web_ports : Given (codes "availableWebPorts") web cfg
  pub sock_ports : Given (codes "availableWebSockPorts") sock cfg
  pub rtc_ports : Given (codes "availableWebRtcPorts") rtc cfg

-- The manager without ports and sessions, with the ports of the file.
abbrev pub ready : Properties → List ℕ → List ℕ → List ℕ → SessionManager → SessionManager
ready cfg web sock rtc m = record m {
  public_address = property (codes "publicAddress") cfg;
  used_ports = free web;
  used_sock_ports = free sock;
  used_rtc_ports = free rtc;
}

module _ (open_socket : Text → ℕ → Option ℕ) (junk_recv junk_send : ℕ → ℕ) (address : Text)
    (port : ℕ) (n : Node) (u : Unconnected)
    (new : new_client junk_recv junk_send address port ≡ some u) where
  abbrev linked : Unconnected × Option (Client FrontendRequest) → Outcome Node (Unit {0})
  linked r = elim r.1 [
    | none ↦ throws socket_error (record n { client = some r })
    | some _ ↦ ok tt (record n { client = some r })
  ]

  through :
      make_client open_socket junk_recv junk_send address port n ≡ linked (connect open_socket u)
  unfolding make_client
  through =
      ap
        (λ o. elim o as (λ _. Outcome Node (Unit {0})) [
          | none ↦ fault
          | some v ↦ linked (connect open_socket v)
        ])
        new

  make_client-refused :
      open_socket u.connect_address u.connect_port ≡ none
      → make_client open_socket junk_recv junk_send address port n
        ≡ throws socket_error (record n { client = some (record u { active = true }, none) })
  unfolding make_client connect
  make_client-refused e =
      let q : connect {P = FrontendRequest} open_socket u ≡ (record u { active = true }, none) =
        rw (connect, e) refl in
      through ∙ ap linked q

  make_client-opened :
      (fd : ℕ)
      → open_socket u.connect_address u.connect_port ≡ some fd
      → make_client open_socket junk_recv junk_send address port n
        ≡ ok tt (record n { client = some (record u { active = true }, some (connected fd u)) })
  unfolding make_client connect
  make_client-opened fd e =
      let q : connect {P = FrontendRequest} open_socket u
          ≡ (record u { active = true }, some (connected fd u)) =
        rw (connect, e) refl in
      through ∙ ap linked q

module _ (open_socket : Text → ℕ → Option ℕ) (junk_recv junk_send : ℕ → ℕ) (now : ℕ)
    (junk_active junk_blocking : Bool) (lines : Option (List Text)) (n : Node)
    (frontend_port bind_port : ℕ) (web sock rtc : List ℕ) where
  abbrev cfg : Properties
  cfg = load lines []

  abbrev started : Outcome Node (Unit {0})
  started = initialize open_socket junk_recv junk_send now junk_active junk_blocking lines n

  abbrev address : Text
  address = property (codes "frontendServerAddress") cfg

  -- For a configuration file that gives the two ports of the node's connections and three lists of
  -- ports, and a node without ports: where the front end cannot be reached at the address and port
  -- of the file, the start ends with the exception of the socket, and the server and the manager
  -- are as before. Otherwise it succeeds: the client is active and its connection is on the new
  -- socket, the server has the address and port of the file and no selector thread, and the
  -- manager has the public address and exactly the ports of the file, none in use.
  pub initialize_lem :
      Says cfg frontend_port bind_port web sock rtc
      → n.manager.used_ports ≡ []
      → n.manager.used_sock_ports ≡ []
      → n.manager.used_rtc_ports ≡ []
      → ((open_socket address frontend_port ≡ none)
          × (n' : Node) × (started ≡ throws socket_error n')
          × (n'.server ≡ n.server)
          × (n'.manager ≡ n.manager))
        ⊎ ((fd : ℕ) × (u : Unconnected) × (c : Client FrontendRequest) × (s : Server RemotooAnswer)
            × (n' : Node) × (open_socket address frontend_port ≡ some fd)
            × (started ≡ ok tt n')
            × (n'.remotoo_bin_dir ≡ property (codes "remotooBinaryDir") cfg)
            × (n'.remolon_xinitrc_dir ≡ property (codes "remolonXinitrcDir") cfg)
            × (n'.client ≡ some (u, some c))
            × (c.active ≡ true)
            × (c.connection ≡ raw_connection fd)
            × (n'.server ≡ some s)
            × (s.bind_ip_address ≡ property (codes "innerServerAddress") cfg)
            × (s.bind_port ≡ bind_port)
            × (s.selector_workers ≡ [])
            × (n'.manager ≡ ready cfg web sock rtc n.manager))
  unfolding initialize new_client new_server
  initialize_lem says ew es er =
      let frontend : (s : Node)
          → port_property (codes "frontendServerPort") cfg s ≡ ok frontend_port s =
        λ s.
          port_property-to_string (codes "frontendServerPort") frontend_port cfg s says.frontend
            says.small in
      let inner : (s : Node) → port_property (codes "innerServerPort") cfg s ≡ ok bind_port s = λ s.
        port_property-to_string (codes "innerServerPort") bind_port cfg s says.inner
          says.inner_small in
      let (r, made_recv, _, _) = made_lem junk_recv in
      let (b, made_send, _, _) = made_lem junk_send in
      let n0 : Node = with_dirs cfg n in
      let u : Unconnected = record {
        active = false;
        connect_address = address;
        connect_port = frontend_port;
        recv_buffer = r;
        send_buffer = b;
      } in
      let new : new_client junk_recv junk_send address frontend_port ≡ some u =
        rw (new_client, made_send, made_recv) refl in
      elim (Option-cases (open_socket address frontend_port)) [
        | inl refused ↦ inl (
          refused,
          record n0 { client = some (record u { active = true }, none) },
          rw
              (
                initialize,
                ◌>>=◌,
                frontend,
                ◌>>=◌,
                make_client-refused open_socket junk_recv junk_send address frontend_port n0 u new
                    refused,
              )
              refl,
          refl,
          refl,
        )
        | inr (fd, opened) ↦
            let n1 : Node = record n0 {
              client = some (record u { active = true }, some (connected fd u));
            } in
            let s : Server RemotooAnswer =
              new_server now junk_active junk_blocking (property (codes "innerServerAddress") cfg)
                bind_port in
            inr (
              fd,
              record u { active = true },
              connected fd u,
              s,
              with_configuration cfg (with_server s n1),
              opened,
              rw
                  (
                    initialize,
                    ◌>>=◌,
                    frontend,
                    ◌>>=◌,
                    make_client-opened open_socket junk_recv junk_send address frontend_port n0 u
                        new fd opened,
                    ◌>>=◌,
                    inner,
                  )
                  refl,
              refl,
              refl,
              refl,
              refl,
              refl,
              refl,
              refl,
              refl,
              refl,
              configure_lem cfg web sock rtc n.manager says.web_ports says.sock_ports says.rtc_ports
                  ew es er,
            )
      ]
