-- ===== src/Node/Setup/Ports.antt =====
-- The port tables that a node starts with.
use re_mo_lon.Common.{ℕ, ◌%◌, ◌^◌, ◌<◌, ◌≡◌, refl, sym, ap, ◌∙◌, List, [], ◌∷◌, some, false, arith}
use re_mo_lon.Common.Eq.{Text, text_eq, nat_eq, codes}
use re_mo_lon.Common.Assoc.{find, assign_all, assign_all-append, Distinct}
use re_mo_lon.Common.Decimal.{to_string}
use re_mo_lon.Util.Config.{Properties, get_property_list}
use re_mo_lon.Util.Config.Fields.{join, AllFields, fields_of-join, get_property_list_lem}
use re_mo_lon.Util.Config.Numbers.{stoi-to_string, to_string-IsField}
use re_mo_lon.Node.SessionManager.{
  SessionManager, PortTable, set_public_address, add_available_port, add_available_socket_port,
  add_available_rtc_port,
}
use re_mo_lon.Util.Config.Ports.{property}
use re_mo_lon.Node.Setup.{add_ports, configure}

abbrev pub texts : List ℕ → List Text
texts [] = []
texts (p ∷ ports) = to_string p ∷ texts ports

-- A table with these ports, none of them in use.
abbrev pub free : List ℕ → PortTable
free [] = []
free (p ∷ ports) = (p, false) ∷ free ports

abbrev pub AllPorts : List ℕ → Type 0
AllPorts [] = Unit {0}
AllPorts (p ∷ ports) = (p < 2 ^ 16) × AllPorts ports

abbrev add_each : (ℕ → SessionManager → SessionManager) → List ℕ → SessionManager → SessionManager
add_each add [] m = m
add_each add (p ∷ ports) m = add_each add ports (add p m)

add_ports-texts :
    (add : ℕ → SessionManager → SessionManager) (ports : List ℕ) (m : SessionManager)
    → AllPorts ports
    → add_ports add (texts ports) m ≡ add_each add ports m
unfolding add_ports
add_ports-texts add [] m h = refl
add_ports-texts add (p ∷ ports) m (small, h) =
    let same : p % 2 ^ 16 ≡ p = omega arith in
    rw (add_ports, stoi-to_string p (omega (arith, small)), same)
      (add_ports-texts add ports (add p m) h)

add_each-web :
    (ports : List ℕ) (m : SessionManager)
    → add_each add_available_port ports m
      ≡ record m { used_ports = assign_all (free ports) m.used_ports }
add_each-web [] m = refl
add_each-web (p ∷ ports) m = add_each-web ports (add_available_port p m)

add_each-sock :
    (ports : List ℕ) (m : SessionManager)
    → add_each add_available_socket_port ports m
      ≡ record m { used_sock_ports = assign_all (free ports) m.used_sock_ports }
add_each-sock [] m = refl
add_each-sock (p ∷ ports) m = add_each-sock ports (add_available_socket_port p m)

add_each-rtc :
    (ports : List ℕ) (m : SessionManager)
    → add_each add_available_rtc_port ports m
      ≡ record m { used_rtc_ports = assign_all (free ports) m.used_rtc_ports }
add_each-rtc [] m = refl
add_each-rtc (p ∷ ports) m = add_each-rtc ports (add_available_rtc_port p m)

AllFields-texts : (ports : List ℕ) → AllFields (44 ∷ []) (texts ports)
AllFields-texts [] = tt
AllFields-texts (p ∷ ports) = (to_string-IsField p, AllFields-texts ports)

-- The property lists these ports in base 10, with a comma between two of them.
abbrev pub Lists : Text → List ℕ → Properties → Type 0
Lists key ports cfg = find key cfg ≡ some (join 44 (texts ports))

get_property_list-texts :
    (key : Text) (p : ℕ) (ports : List ℕ) (cfg : Properties)
    → Lists key (p ∷ ports) cfg
    → get_property_list key (codes ",") cfg ≡ texts (p ∷ ports)
get_property_list-texts key p ports cfg e =
    get_property_list_lem key (codes ",") cfg
    ∙ rw e
        (fields_of-join (44 ∷ []) 44 (to_string p) (texts ports) refl (AllFields-texts (p ∷ ports)))

-- A list of ports that a node can be given.
pub record Given (key : Text) (ports : List ℕ) (cfg : Properties) : Type 0 where
  pub first : ℕ
  pub others : List ℕ
  pub some_ports : ports ≡ first ∷ others
  pub listed : Lists key ports cfg
  pub small : AllPorts ports
  pub distinct : Distinct (free ports)

Given-texts :
    (key : Text) (ports : List ℕ) (cfg : Properties)
    → Given key ports cfg
    → get_property_list key (codes ",") cfg ≡ texts ports
Given-texts key ports cfg g =
    get_property_list-texts key g.first g.others cfg
      (g.listed ∙ ap (λ l. some (join 44 (texts l))) g.some_ports)
    ∙ ap texts (sym g.some_ports)

filled :
    (ports : List ℕ) (table : PortTable)
    → Distinct (free ports)
    → table ≡ []
    → assign_all (free ports) table ≡ free ports
filled ports table d e = ap (assign_all (free ports)) e ∙ assign_all-append (free ports) [] d

module _ (cfg : Properties) (m : SessionManager) (ports : List ℕ) where
  add_ports-Given :
      (add : ℕ → SessionManager → SessionManager) (key : Text)
      → Given key ports cfg
      → add_ports add (get_property_list key (codes ",") cfg) m ≡ add_each add ports m
  add_ports-Given add key g =
      ap (λ l. add_ports add l m) (Given-texts key ports cfg g)
      ∙ add_ports-texts add ports m g.small

  web_filled :
      Given (codes "availableWebPorts") ports cfg
      → m.used_ports ≡ []
      → add_ports add_available_port
          (get_property_list (codes "availableWebPorts") (codes ",") cfg)
          m
        ≡ record m { used_ports = free ports }
  web_filled g e =
      add_ports-Given add_available_port (codes "availableWebPorts") g
      ∙ add_each-web ports m
      ∙ ap (λ t. record m { used_ports = t }) (filled ports m.used_ports g.distinct e)

  sock_filled :
      Given (codes "availableWebSockPorts") ports cfg
      → m.used_sock_ports ≡ []
      → add_ports add_available_socket_port
          (get_property_list (codes "availableWebSockPorts") (codes ",") cfg)
          m
        ≡ record m { used_sock_ports = free ports }
  sock_filled g e =
      add_ports-Given add_available_socket_port (codes "availableWebSockPorts") g
      ∙ add_each-sock ports m
      ∙ ap (λ t. record m { used_sock_ports = t }) (filled ports m.used_sock_ports g.distinct e)

  rtc_filled :
      Given (codes "availableWebRtcPorts") ports cfg
      → m.used_rtc_ports ≡ []
      → add_ports add_available_rtc_port
          (get_property_list (codes "availableWebRtcPorts") (codes ",") cfg)
          m
        ≡ record m { used_rtc_ports = free ports }
  rtc_filled g e =
      add_ports-Given add_available_rtc_port (codes "availableWebRtcPorts") g
      ∙ add_each-rtc ports m
      ∙ ap (λ t. record m { used_rtc_ports = t }) (filled ports m.used_rtc_ports g.distinct e)

-- For a configuration whose three lists name ports, at least one each, below 2 ^ 16 and no two the
-- same in a list, written in base 10 with commas between them: a manager without ports has exactly
-- these ports in its three tables, none in use, and the public address of the configuration, and
-- nothing else of it changes.
pub configure_lem :
    (cfg : Properties) (web sock rtc : List ℕ) (m : SessionManager)
    → Given (codes "availableWebPorts") web cfg
    → Given (codes "availableWebSockPorts") sock cfg
    → Given (codes "availableWebRtcPorts") rtc cfg
    → m.used_ports ≡ []
    → m.used_sock_ports ≡ []
    → m.used_rtc_ports ≡ []
    → configure cfg m ≡ record m {
      public_address = property (codes "publicAddress") cfg;
      used_ports = free web;
      used_sock_ports = free sock;
      used_rtc_ports = free rtc;
    }
unfolding configure
configure_lem cfg web sock rtc m gw gs gr ew es er =
    let m0 = set_public_address (property (codes "publicAddress") cfg) m in
    let m1 : SessionManager = record m0 { used_ports = free web } in
    let m2 : SessionManager = record m1 { used_sock_ports = free sock } in
    let socks = get_property_list (codes "availableWebSockPorts") (codes ",") cfg in
    let rtcs = get_property_list (codes "availableWebRtcPorts") (codes ",") cfg in
    ap (λ k. add_ports add_available_rtc_port rtcs (add_ports add_available_socket_port socks k))
      (web_filled cfg m0 web gw ew)
    ∙ ap (add_ports add_available_rtc_port rtcs) (sock_filled cfg m1 sock gs es)
    ∙ rtc_filled cfg m2 rtc gr er
