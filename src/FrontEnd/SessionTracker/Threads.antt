-- ===== src/FrontEnd/SessionTracker/Threads.antt =====
-- Creations of sessions by several threads at once: between the choice of a node, the reservation of
-- its slot and the entry of the session, other threads run. `tryCreateSession` holds the lock of its
-- user object alone, so this is what two users' requests can do; the lock of the node makes
-- `tryReserveSlot` one step. That two threads write `_openSessions` in one moment, which no lock
-- prevents, is not in the model.
pub mod Reserving
pub mod Entering
pub mod Safe
use re_mo_lon.Common.{
  ℕ, List, [], ◌∷◌, Option, none, some, Bool, true, false, nat_beq, if◌then◌else◌,
}
use re_mo_lon.Common.Eq.{Text}
use re_mo_lon.FrontEnd.User.{User}
use re_mo_lon.FrontEnd.VisualizationNode.{try_reserve_slot}
use re_mo_lon.FrontEnd.NodeManager.{get_node, put_node}
use re_mo_lon.FrontEnd.SessionTracker.{
  Tracker, enter_session, create_session, try_finish_session, finish_session,
}

-- A creation that has its slot and has not entered its session.
pub record Flight : Type 0 where
  pub user : User
  pub name : Text
  pub address : Text
  pub port : ℕ

-- The tracker, and the creation that each thread is in.
pub record Shared : Type 0 where
  pub tracker : Tracker
  pub flights : ℕ → Option Flight

abbrev pub set_flight : ℕ → Option Flight → (ℕ → Option Flight) → ℕ → Option Flight
set_flight i flight flights j = if nat_beq i j then flight else flights j

-- `reserves` is `tryReserveSlot` on the node at an address, which the thread has found at any earlier
-- moment; `enters` is what `tryCreateSession` does from there on. The other calls are those of the
-- tracker.
pub data Event : Type 0 where
  reserves : ℕ → User → Text → Text → Event
  enters : ℕ → Event
  is_created : User → Text → ℕ → Event
  finishes is_finished : User → Text → Event

unfoldable pub reserve : ℕ → User → Text → Text → Shared → Shared
reserve i user name a s = elim (get_node a s.tracker.nodes) [
  | none ↦ s
  | some n ↦
      let ((slot_reserved, port), n') = try_reserve_slot 0 n in
      if slot_reserved
      then record {
        tracker = record s.tracker { nodes = put_node a n' s.tracker.nodes };
        flights =
            set_flight i (some (record { user = user; name = name; address = a; port = port }))
              s.flights;
      }
      else s
]

unfoldable pub enter : ℕ → Flight → Shared → Shared
enter i flight s = elim (get_node flight.address s.tracker.nodes) [
  | none ↦ s
  | some n ↦ record {
    tracker = (enter_session flight.user flight.name n flight.port s.tracker.nodes s.tracker).2;
    flights = set_flight i none s.flights;
  }
]

-- A thread that is in a creation reserves no second slot, and one that is in none enters nothing.
unfoldable pub step : Event → Shared → Shared
step (reserves i user name a) s = elim (s.flights i) [ none ↦ reserve i user name a s | some _ ↦ s ]
step (enters i) s = elim (s.flights i) [ none ↦ s | some flight ↦ enter i flight s ]
step (is_created user name status) s = record s {
  tracker = create_session user name status s.tracker;
}
step (finishes user name) s = record s { tracker = (try_finish_session user name s.tracker).1 }
step (is_finished user name) s = record s { tracker = (finish_session user name s.tracker).1 }

unfoldable pub interleave : List Event → Shared → Shared
interleave [] s = s
interleave (e ∷ events) s = interleave events (step e s)
