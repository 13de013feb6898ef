-- ===== src/FrontEnd/SessionTracker/Threads/Safe.antt =====
-- No interleaving of creations gives a port twice.
use re_mo_lon.Common.{ℕ, ◌≡◌, sym, subst, ◌∙◌, inl, inr, List, [], ◌∷◌, Option-cases}
use re_mo_lon.Common.Eq.{Text, text_eq, nat_eq}
use re_mo_lon.Common.Assoc
use re_mo_lon.Common.Assoc.{find-assign, assign-Distinct}
use re_mo_lon.FrontEnd.User.{User}
use re_mo_lon.FrontEnd.VisualizationNode.Slots.{try_reserve_slot_lem}
use re_mo_lon.FrontEnd.NodeManager.{get_node}
use re_mo_lon.FrontEnd.SessionTracker.{Tracker}
use re_mo_lon.FrontEnd.SessionTracker.Calls.{
  Within, Within-Inv, create_session-nodes, create_session-Within, finish_session-nodes,
  finish_session-Within, try_finish_session-nodes, try_finish_session-Within,
}
use re_mo_lon.FrontEnd.SessionTracker.Threads.{
  Shared, Event, reserves, enters, is_created, finishes, is_finished, reserve, enter, step,
  interleave,
}
use re_mo_lon.FrontEnd.SessionTracker.Threads.Reserving.{
  HeldAt, SharedInv, find-AllCounted, reserved-SharedInv,
}
use re_mo_lon.FrontEnd.SessionTracker.Threads.Entering.{entered-SharedInv}

-- A call that keeps the nodes, and whose sessions were there before.
Within-SharedInv :
    (s : Shared) (t : Tracker)
    → t.nodes ≡ s.tracker.nodes
    → Within t.open_sessions s.tracker.open_sessions
    → SharedInv s
    → SharedInv (record s { tracker = t })
Within-SharedInv s t same w v = record {
  sessions = Within-Inv s.tracker t same w v.sessions;
  flying = λ i f e. subst (HeldAt f.address f.port) (sym same) (v.flying i f e);
  apart = λ i f u n info e d ea ep.
      let (old, d', oa, op) = w u n info d in v.apart i f u n old e d' (sym oa ∙ ea) (sym op ∙ ep);
  alone = v.alone;
}

reserve-SharedInv :
    (i : ℕ) (user : User) (name a : Text) (s : Shared)
    → SharedInv s
    → SharedInv (reserve i user name a s)
unfolding reserve get_node
reserve-SharedInv i user name a s v = elim (Option-cases (Assoc.find a s.tracker.nodes.node_list)) [
  | inl e ↦ rw (reserve, e) v
  | inr (n, e) ↦
      let counted = find-AllCounted a n _ v.sessions.nodes_valid.counted e in
      elim (try_reserve_slot_lem 0 n counted) [
        | inl (_, failed) ↦ rw (reserve, e, failed) v
        | inr (p, n', took, r) ↦
            rw (reserve, e, took) (reserved-SharedInv s v i user name a n n' p e r)
      ]
]

step-SharedInv : (e : Event) (s : Shared) → SharedInv s → SharedInv (step e s)
unfolding step enter get_node
step-SharedInv (reserves i user name a) s v = elim (Option-cases (s.flights i)) [
  | inl e ↦ rw (step, e) (reserve-SharedInv i user name a s v)
  | inr (f, e) ↦ rw (step, e) v
]
step-SharedInv (enters i) s v = elim (Option-cases (s.flights i)) [
  | inl e ↦ rw (step, e) v
  | inr (f, e) ↦ elim (Option-cases (Assoc.find f.address s.tracker.nodes.node_list)) [
    | inl none_there ↦ rw (step, e, enter, none_there) v
    | inr (n, there) ↦ rw (step, e, enter, there) (entered-SharedInv s v i f n e there)
  ]
]
step-SharedInv (is_created user name status) s v =
    Within-SharedInv s _ (create_session-nodes user name status s.tracker)
      (create_session-Within user name status s.tracker) v
step-SharedInv (finishes user name) s v =
    Within-SharedInv s _ (try_finish_session-nodes user name s.tracker)
      (try_finish_session-Within user name s.tracker) v
step-SharedInv (is_finished user name) s v =
    Within-SharedInv s _ (finish_session-nodes user name s.tracker)
      (finish_session-Within user name s.tracker) v

-- However the creations of any number of threads interleave, between the choice of a node, the
-- reservation of a slot there and the entry of the session, with one another and with the other
-- calls of the tracker: the invariant of the sessions holds, the slot of every creation that is
-- under way is in use, and no session and no other creation has it.
pub interleave-SharedInv :
    (events : List Event) (s : Shared) → SharedInv s → SharedInv (interleave events s)
unfolding interleave
interleave-SharedInv [] s v = v
interleave-SharedInv (e ∷ events) s v =
    interleave-SharedInv events (step e s) (step-SharedInv e s v)
