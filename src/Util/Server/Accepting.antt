-- ===== src/Util/Server/Accepting.antt =====
-- What a server that has started makes of the sockets that it accepts.
use re_mo_lon.Common.{
  ℕ, ◌+◌, ◌≤◌, ◌<◌, ◌≡◌, sym, ap, subst, ◌∙◌, List, [], ◌∷◌, ◌++◌, true, lt→ltb, if◌then◌else◌,
  arith, length, length-append, append_assoc, append-nil,
}
use re_mo_lon.Common.Eq.{nat_eq}
use re_mo_lon.Common.Assoc.{Distinct, Absent, find-Absent, assign-append, Absent-append}
use re_mo_lon.Util.Connection.{Connection}
use re_mo_lon.Util.SelectorThread.{Connections, add_connection}
use re_mo_lon.Util.Server.{
  Server, AcceptEvent, accepts, accept_one, accept_loop, create_new_connection, with_selector,
  assign_connection_to_worker, less_loaded, add_at,
}

-- A connection in the set of its selector thread: its socket waits for reads alone.
abbrev pub entry : ℕ → ℕ × Connection
entry fd = (fd, record (create_new_connection fd) { polled = true })

abbrev pub entries : List ℕ → Connections
entries [] = []
entries (fd ∷ fds) = entry fd ∷ entries fds

abbrev pub all_accepted : List ℕ → List AcceptEvent
all_accepted [] = []
all_accepted (fd ∷ fds) = accepts fd ∷ all_accepted fds

-- One worker, with room for the connection.
assign_connection-one :
    (fd : ℕ) (cs : Connections)
    → length cs < 999999
    → Absent fd cs
    → assign_connection_to_worker (create_new_connection fd) (cs ∷ [])
      ≡ (cs ++ (entry fd ∷ [])) ∷ []
unfolding assign_connection_to_worker less_loaded add_connection
assign_connection-one fd cs small away =
    rw
      (
        assign_connection_to_worker,
        lt→ltb _ _ small,
        add_at,
        add_connection,
        find-Absent fd cs away,
      )
      (ap (λ l. l ∷ []) (assign-append fd (entry fd).1 cs away))

abbrev with_worker : {P : Type 0} → Connections → Server P → Server P
with_worker cs s = record s { selector_workers = cs ∷ [] }

accept_loop-from :
    {P : Type 0} (fds : List ℕ) (cs : Connections) (s : Server P)
    → s.active ≡ true
    → Distinct (cs ++ entries fds)
    → length cs + length fds ≤ 999999
    → accept_loop (all_accepted fds) (with_worker cs s) ≡ with_worker (cs ++ entries fds) s
unfolding accept_loop accept_one
accept_loop-from [] cs s on h room = ap (λ l. with_worker l s) (sym (append-nil cs))
accept_loop-from (fd ∷ fds) cs s on h room =
    let added : Connections = cs ++ (entry fd ∷ []) in
    let whole : added ++ entries fds ≡ cs ++ entries (fd ∷ fds) =
      append_assoc cs (entry fd ∷ []) (entries fds) in
    let away : Absent fd cs = Absent-append fd (entry fd).1 cs (entries fds) h in
    ap
      (λ a.
        if a
        then accept_loop (all_accepted fds) (accept_one (accepts fd) (with_worker cs s))
        else with_worker cs s)
      on
    ∙ ap (λ ws. accept_loop (all_accepted fds) (record s { selector_workers = ws }))
        (assign_connection-one fd cs (omega (arith, room)) away)
    ∙ accept_loop-from fds added s on (subst Distinct (sym whole) h)
        (omega (arith, room, length-append cs (entry fd ∷ [])))
    ∙ ap (λ l. with_worker l s) whole

-- When a server without selector threads has made its one, as long as it is not shut down: sockets
-- with different descriptors, no more than 999999, are all added to it, in the order in which they
-- are accepted, and wait for reads alone.
pub accept_loop_lem :
    {P : Type 0} (fds : List ℕ) (s : Server P)
    → s.active ≡ true
    → s.selector_workers ≡ []
    → Distinct (entries fds)
    → length fds ≤ 999999
    → accept_loop (all_accepted fds) (with_selector s)
      ≡ record (with_selector s) { selector_workers = entries fds ∷ [] }
accept_loop_lem fds s on e h room =
    let one : with_selector s ≡ with_worker [] (with_selector s) =
      ap (λ l. record (with_selector s) { selector_workers = l ++ ([] ∷ []) }) e in
    ap (accept_loop (all_accepted fds)) one
    ∙ accept_loop-from fds [] (with_selector s) on h (omega (arith, room))
