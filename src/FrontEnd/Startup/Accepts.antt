-- ===== src/FrontEnd/Startup/Accepts.antt =====
-- The front end's server runs, and takes the nodes that connect.
use re_mo_lon.Common.{
  ℕ, ◌%◌, ◌^◌, ◌≤◌, ◌≡◌, refl, ap, if◌then◌else◌, ◌∙◌, Bool-cases, ◌⊎◌, inl, inr, List, [], ◌∷◌,
  Option, some, Bool, true, length, false,
}
use re_mo_lon.Common.Eq.{Text, codes, nat_eq}
use re_mo_lon.Common.Assoc.{Distinct}
use re_mo_lon.Common.Outcome.{
  Outcome, Run, socket_error, ok, throws, invalid_argument, out_of_range, ◌>>=◌,
}
use re_mo_lon.Util.Config
use re_mo_lon.Util.Config.{Properties, number, load, get_int_property}
use re_mo_lon.Util.Config.Ports.{stoi-cases, property, port_property}
use re_mo_lon.Util.PacketHandler.{register_packet_factory}
use re_mo_lon.Util.Server
use re_mo_lon.Util.Server.{Server, new_server, marked, with_selector, accept_loop}
use re_mo_lon.Util.Server.Accepting.{entries, all_accepted, accept_loop_lem}
use re_mo_lon.FrontEnd.Packets.{ConnectionRef, ClientPacket}
use re_mo_lon.FrontEnd.NodeInfo.{factories}
use re_mo_lon.FrontEnd.Startup.{
  Listening, SessionManagerServer, register_receivable_packet, on_server, start,
}

-- A server that listens there, with one selector thread and no connection yet.
pub record IsListening (address : Text) (port : ℕ) (s : Server ClientPacket) : Type 0 where
  pub bound : s.bind_ip_address ≡ address
  pub on_port : s.bind_port ≡ port
  pub running : s.active ≡ true
  pub one_selector : s.selector_workers ≡ [] ∷ []
  pub selecting : s.worker_flags ≡ true ∷ []

module _ (bind : Text → ℕ → Bool) (l : Listening) where
  begun : Run SessionManagerServer (Unit {0})
  begun = on_server (Server.start bind false)

  begun_if : Bool → Outcome SessionManagerServer (Unit {0})
  unfolding on_server
  begun_if b =
      on_server
        (λ s.
          if b
          then ok tt (with_selector (marked false s))
          else throws socket_error (marked false s))
        (some l)

  begun-bound :
      bind l.server.bind_ip_address l.server.bind_port ≡ true
      → begun (some l) ≡ ok tt (some (record l { server = with_selector (marked false l.server) }))
  unfolding begun begun_if on_server re_mo_lon.Util.Server.start
  begun-bound e = ap begun_if e

  begun-refused :
      bind l.server.bind_ip_address l.server.bind_port ≡ false
      → begun (some l) ≡ throws socket_error (some (record l { server = marked false l.server }))
  unfolding begun begun_if on_server re_mo_lon.Util.Server.start
  begun-refused e = ap begun_if e

module _ (bind : Text → ℕ → Bool) (now : ℕ) (junk_active junk_blocking : Bool)
    (junk_total junk_used : ℕ) (con : ConnectionRef) (lines : Option (List Text))
    (s : SessionManagerServer) where
  abbrev cfg : Properties
  cfg = load lines []

  abbrev address : Text
  address = property (codes "serverIPAddressBind") cfg

  abbrev started : Outcome SessionManagerServer (Unit {0})
  started = start bind now junk_active junk_blocking junk_total junk_used con lines s

  abbrev made : ℕ → Listening
  made v = record {
    server = new_server now junk_active junk_blocking address (v % 2 ^ 16);
    packet_factories = factories junk_total junk_used con;
  }

  started-begun :
      (v : ℕ)
      → get_int_property (codes "serverPortBind") 0 cfg ≡ number v
      → started ≡ begun bind (made v) (some (made v))
  unfolding start port_property register_receivable_packet register_packet_factory factories begun
  started-begun v e = rw (start, ◌>>=◌, port_property, e) refl

  -- For any configuration file, the front end ends with what `std::stoi` throws for the port, with
  -- nothing changed, or with the exception of a socket that cannot be bound to the address and
  -- port of the file, with no selector thread; or where it can, it has a running server there,
  -- whose packet handler knows the three packets of a node and no other. As long as that is not
  -- shut down, sockets with different descriptors, no more than 999999, are all added to its one
  -- selector thread in the order in which they are accepted.
  pub start_lem :
      (fds : List ℕ)
      → Distinct (entries fds)
      → length fds ≤ 999999
      → ((get_int_property (codes "serverPortBind") 0 cfg ≡ Config.invalid_argument)
          × (started ≡ throws invalid_argument s))
        ⊎ ((get_int_property (codes "serverPortBind") 0 cfg ≡ Config.out_of_range)
            × (started ≡ throws out_of_range s))
        ⊎ ((v : ℕ) × (l : Listening) × (get_int_property (codes "serverPortBind") 0 cfg ≡ number v)
            × (bind address (v % 2 ^ 16) ≡ false)
            × (started ≡ throws socket_error (some l))
            × (l.server.selector_workers ≡ []))
        ⊎ ((v : ℕ) × (l : Listening) × (get_int_property (codes "serverPortBind") 0 cfg ≡ number v)
            × (bind address (v % 2 ^ 16) ≡ true)
            × (started ≡ ok tt (some l))
            × IsListening address (v % 2 ^ 16) l.server
            × (l.packet_factories ≡ factories junk_total junk_used con)
            × (accept_loop (all_accepted fds) l.server
                ≡ record l.server { selector_workers = entries fds ∷ [] }))
  unfolding start port_property new_server
  start_lem fds distinct few = elim (stoi-cases (get_int_property (codes "serverPortBind") 0 cfg)) [
    | inr (inl e) ↦ inl (e, rw (start, ◌>>=◌, port_property, e) refl)
    | inr (inr e) ↦ inr (inl (e, rw (start, ◌>>=◌, port_property, e) refl))
    | inl (v, e) ↦ elim (Bool-cases (bind address (v % 2 ^ 16))) [
      | inr refused ↦ inr (
          inr (
            inl (
              v,
              record (made v) { server = marked false (made v).server },
              e,
              refused,
              started-begun v e ∙ begun-refused bind (made v) refused,
              refl,
            )))
      | inl bound ↦ inr (
          inr (
            inr (
              v,
              record (made v) { server = with_selector (marked false (made v).server) },
              e,
              bound,
              started-begun v e ∙ begun-bound bind (made v) bound,
              record {
                bound = refl;
                on_port = refl;
                running = refl;
                one_selector = refl;
                selecting = refl;
              },
              refl,
              accept_loop_lem fds (marked false (made v).server) refl refl distinct few,
            )))
    ]
  ]
