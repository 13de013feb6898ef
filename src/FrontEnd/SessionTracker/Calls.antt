-- ===== src/FrontEnd/SessionTracker/Calls.antt =====
-- The calls that the front end makes on its sessions, in any order.
use re_mo_lon.Common.{
  ℕ, suc, ◌≡◌, sym, ◌∙◌, subst, ◌⊎◌, inl, inr, List, [], ◌∷◌, none, some, true, arith, Option-cases,
}
use re_mo_lon.Common.Eq.{Text, text_eq, nat_eq}
use re_mo_lon.Common.Assoc
use re_mo_lon.Common.Assoc.{find-assign, find-Absent, Distinct, assign-Distinct}
use re_mo_lon.FrontEnd.User.{User, get_user_name}
use re_mo_lon.FrontEnd.VisualizationNode.{VisualizationNode}
use re_mo_lon.FrontEnd.VisualizationNode.Slots.{Reserved}
use re_mo_lon.FrontEnd.NodeManager.{NodeManager, find_best_node, put_node}
use re_mo_lon.FrontEnd.NodeManager.Balance.{Among, AtMost}
use re_mo_lon.FrontEnd.SessionTracker.{
  Tracker, OpenSessions, SessionInfo, fail_duplicate_name, fail_no_available_nodes,
  get_session_info, enter_session, try_create_session, create_session, finish_session,
  try_finish_session,
}
use re_mo_lon.FrontEnd.SessionTracker.Reservation.{AllCounted, search_slot_ends}
use re_mo_lon.FrontEnd.SessionTracker.Lookup.{
  get_session_info_lem, session_at, session_at-create, session_at-finish, session_at-try_finish,
}
use re_mo_lon.FrontEnd.SessionTracker.Exclusive.{NodesValid, AllHeld, Exclusive, Inv, entered-Inv}

-- Each session of `s'` is one of `s`, on the same port of the same node.
abbrev pub Within : OpenSessions → OpenSessions → Type 0
Within s' s =
    (u n : Text) (i' : SessionInfo)
    → session_at u n s' ≡ some i'
    → (i : SessionInfo) × (session_at u n s ≡ some i)
      × (i'.node_address ≡ i.node_address)
      × (i'.node_port ≡ i.node_port)

Within-AllHeld : (s s' : OpenSessions) (m : NodeManager) → Within s' s → AllHeld s m → AllHeld s' m
Within-AllHeld s s' m w h u n i' e' =
    let (i, e, a, p) = w u n i' e' in
    let (node, f, g) = h u n i e in
    (
      node,
      subst (λ k. Assoc.find k m.node_list ≡ some node) (sym a) f,
      subst (λ k. Assoc.find k node.slot_tracker ≡ some true) (sym p) g,
    )

Within-Exclusive : (s s' : OpenSessions) → Within s' s → Exclusive s → Exclusive s'
Within-Exclusive s s' w h u n u' n' i i' e e' a p =
    let (j, f, b, q) = w u n i e in
    let (j', f', b', q') = w u' n' i' e' in h u n u' n' j j' f f' (sym b ∙ a ∙ b') (sym q ∙ p ∙ q')

-- The calls that the front end makes.
pub data Call : Type 0 where
  creates : User → Text → Call
  is_created : User → Text → ℕ → Call
  finishes is_finished : User → Text → Call

pub step : Call → Tracker → Tracker
step (creates user name) t = elim (try_create_session 1 user name t) [
  | none ↦ t
  | some (_, _, t') ↦ t'
]
step (is_created user name status) t = create_session user name status t
step (finishes user name) t = (try_finish_session user name t).1
step (is_finished user name) t = (finish_session user name t).1

-- Where every node counts its slots, one round of the search is enough. The creation of a session
-- is refused, and changes nothing, where the user has a session of that name, and where the user
-- has none and no node has a slot available. Otherwise the session is entered on a port that was
-- free in the node that the balancer chooses.
pub try_create_session-cases :
    (fuel : ℕ) (user : User) (name : Text) (t : Tracker)
    → AllCounted t.nodes.node_list
    → ((i : SessionInfo) × (session_at (get_user_name user) name t.open_sessions ≡ some i)
        × (try_create_session (suc fuel) user name t ≡ some (fail_duplicate_name, user, t)))
      ⊎ ((session_at (get_user_name user) name t.open_sessions ≡ none)
          × AtMost 0 t.nodes.node_list
          × (try_create_session (suc fuel) user name t ≡ some (fail_no_available_nodes, user, t)))
      ⊎ ((a : Text) × (n n' : VisualizationNode) × (p : ℕ) × (session_at
              (get_user_name user)
              name
              t.open_sessions
            ≡ none)
          × (find_best_node t.nodes ≡ some (a, n))
          × (try_create_session (suc fuel) user name t
              ≡ some (enter_session user name n' p (put_node a n' t.nodes) t))
          × Among (a, n) t.nodes.node_list
          × Reserved n p n')
unfolding try_create_session
try_create_session-cases fuel user name t h =
    let same = sym (get_session_info_lem user name t.open_sessions) in
    elim (Option-cases (get_session_info user name t.open_sessions)) [
      | inr (info, e) ↦ inl (info, same ∙ e, rw (e, try_create_session))
      | inl e ↦ elim (search_slot_ends fuel 0 0 t.nodes h) [
        | inl (full, s) ↦ inr (inl (same ∙ e, full, rw (e, try_create_session, s)))
        | inr (a, n, n', p, s, there, best, r) ↦
            inr (inr (a, n, n', p, same ∙ e, best, rw (e, try_create_session, s), there, r))
      ]
    ]

pub Within-Inv :
    (t t' : Tracker) → t'.nodes ≡ t.nodes → Within t'.open_sessions t.open_sessions → Inv t → Inv t'
Within-Inv t t' e w v = record {
  nodes_valid = subst NodesValid (sym e) v.nodes_valid;
  held =
      subst (AllHeld t'.open_sessions) (sym e)
        (Within-AllHeld t.open_sessions t'.open_sessions t.nodes w v.held);
  exclusive = Within-Exclusive t.open_sessions t'.open_sessions w v.exclusive;
}

pub create_session-nodes :
    (user : User) (name : Text) (status : ℕ) (t : Tracker)
    → (create_session user name status t).nodes ≡ t.nodes
unfolding create_session
create_session-nodes user name status t = ground arith

pub finish_session-nodes :
    (user : User) (name : Text) (t : Tracker) → (finish_session user name t).1.nodes ≡ t.nodes
unfolding finish_session
finish_session-nodes user name t = ground arith

-- Nothing that ends a session gives its slot back.
pub try_finish_session-nodes :
    (user : User) (name : Text) (t : Tracker) → (try_finish_session user name t).1.nodes ≡ t.nodes
unfolding try_finish_session finish_session
try_finish_session-nodes user name t = ground arith

pub create_session-Within :
    (user : User) (name : Text) (status : ℕ) (t : Tracker)
    → Within (create_session user name status t).open_sessions t.open_sessions
create_session-Within user name status t u n i' e' =
    elim (Option-cases (session_at u n t.open_sessions)) [
      | inl e ↦ absurd (ground (arith, session_at-create user name t u n status))
      | inr (i, e) ↦ (
        i,
        e,
        ground (arith, session_at-create user name t u n status),
        ground (arith, session_at-create user name t u n status),
      )
    ]

pub finish_session-Within :
    (user : User) (name : Text) (t : Tracker)
    → Within (finish_session user name t).1.open_sessions t.open_sessions
finish_session-Within user name t u n i' e' = elim (Option-cases (session_at u n t.open_sessions)) [
  | inl e ↦ absurd (ground (arith, session_at-finish user name t u n))
  | inr (i, e) ↦ (
    i,
    e,
    ground (arith, session_at-finish user name t u n),
    ground (arith, session_at-finish user name t u n),
  )
]

pub try_finish_session-Within :
    (user : User) (name : Text) (t : Tracker)
    → Within (try_finish_session user name t).1.open_sessions t.open_sessions
try_finish_session-Within user name t u n i' e' =
    elim (Option-cases (session_at u n t.open_sessions)) [
      | inl e ↦ absurd (ground (arith, session_at-try_finish user name t u n))
      | inr (i, e) ↦ (
        i,
        e,
        ground (arith, session_at-try_finish user name t u n),
        ground (arith, session_at-try_finish user name t u n),
      )
    ]

-- Every call keeps the slots held and no port shared.
pub step-Inv : (c : Call) (t : Tracker) → Inv t → Inv (step c t)
unfolding step
step-Inv (creates user name) t v =
    elim (try_create_session-cases 0 user name t v.nodes_valid.counted) [
      | inl (_, _, e) ↦ rw (e, step) v
      | inr (inl (_, _, e)) ↦ rw (e, step) v
      | inr (inr (a, n, n', p, _, _, e, there, r)) ↦
          rw (e, step) (entered-Inv user name t v a n n' p there r)
    ]
step-Inv (is_created user name status) t v =
    Within-Inv t _ (create_session-nodes user name status t)
      (create_session-Within user name status t) v
step-Inv (finishes user name) t v =
    Within-Inv t _ (try_finish_session-nodes user name t) (try_finish_session-Within user name t) v
step-Inv (is_finished user name) t v =
    Within-Inv t _ (finish_session-nodes user name t) (finish_session-Within user name t) v

pub run : List Call → Tracker → Tracker
run [] t = t
run (c ∷ cs) t = run cs (step c t)

-- Any sequence of calls on the front end's sessions, made one after another, keeps the invariant:
-- every node counts its slots and stands under its own address, the port of every session is in
-- use in the table of its node, and two sessions with the same port of the same node are one
-- session.
pub run-Inv : (cs : List Call) (t : Tracker) → Inv t → Inv (run cs t)
unfolding run
run-Inv [] t v = v
run-Inv (c ∷ cs) t v = run-Inv cs (step c t) (step-Inv c t v)
