-- ===== src/FrontEnd/SessionTracker/Exclusive.antt =====
-- No two sessions hold the same port of the same node, whatever calls are made.
use re_mo_lon.Common.{
  ℕ, ◌≡◌, sym, ap, ◌∙◌, subst, ◌⊎◌, inl, inr, [], ◌∷◌, some, true, ◌&&◌, arith, nat_beq_iff,
  Bool-cases,
}
use re_mo_lon.Common.Eq.{Text, text_eq, nat_eq, ◌==◌, text_beq_iff}
use re_mo_lon.Common.Assoc
use re_mo_lon.Common.Assoc.{find-assign, find-Absent, Distinct, assign-Distinct}
use re_mo_lon.FrontEnd.User.{User, get_user_name}
use re_mo_lon.FrontEnd.VisualizationNode.{VisualizationNode}
use re_mo_lon.FrontEnd.VisualizationNode.Slots.{Reserved}
use re_mo_lon.FrontEnd.NodeManager.{NodeManager, put_node}
use re_mo_lon.FrontEnd.NodeManager.Balance.{Entries, Among}
use re_mo_lon.FrontEnd.SessionTracker.{
  Tracker, OpenSessions, SessionInfo, new_session, set_session_info, enter_session,
}
use re_mo_lon.FrontEnd.SessionTracker.Reservation.{AllCounted, assign-AllCounted}
use re_mo_lon.FrontEnd.SessionTracker.Lookup.{session_at, session_at-set}

-- Every node stands under its own address.
abbrev pub AllAddressed : Entries → Type 0
AllAddressed [] = Unit {0}
AllAddressed ((a, n) ∷ ns) = (n.address ≡ a) × AllAddressed ns

-- The node of a session has the session's port in use.
abbrev pub HoldsSlot : SessionInfo → NodeManager → Type 0
HoldsSlot i m =
    (node : VisualizationNode) × (Assoc.find i.node_address m.node_list ≡ some node)
    × (Assoc.find i.node_port node.slot_tracker ≡ some true)

pub record NodesValid (m : NodeManager) : Type 0 where
  pub counted : AllCounted m.node_list
  pub keyed : Distinct m.node_list
  pub addressed : AllAddressed m.node_list

abbrev pub AllHeld : OpenSessions → NodeManager → Type 0
AllHeld s m = (u n : Text) (i : SessionInfo) → session_at u n s ≡ some i → HoldsSlot i m

-- Two sessions with one port of one node are one session.
abbrev pub Exclusive : OpenSessions → Type 0
Exclusive s =
    (u n u' n' : Text) (i i' : SessionInfo)
    → session_at u n s ≡ some i
    → session_at u' n' s ≡ some i'
    → i.node_address ≡ i'.node_address
    → i.node_port ≡ i'.node_port
    → (u ≡ u') × (n ≡ n')

pub record Inv (t : Tracker) : Type 0 where
  pub nodes_valid : NodesValid t.nodes
  pub held : AllHeld t.open_sessions t.nodes
  pub exclusive : Exclusive t.open_sessions

Among-find :
    (a : Text) (n : VisualizationNode) (ns : Entries)
    → Distinct ns
    → Among (a, n) ns
    → Assoc.find a ns ≡ some n
unfolding Assoc.find
Among-find a n [] d m = absurd m
Among-find a n ((b, k) ∷ ns) d (inl e) = ground (arith, e, text_beq_iff b a)
Among-find a n ((b, k) ∷ ns) d (inr m) =
    ground (arith, Among-find a n ns d.1 m, find-Absent b ns d.0, text_beq_iff b a)

Among-addressed :
    (a : Text) (n : VisualizationNode) (ns : Entries)
    → AllAddressed ns
    → Among (a, n) ns
    → n.address ≡ a
Among-addressed a n [] d m = absurd m
Among-addressed a n ((b, k) ∷ ns) d (inl e) = subst (λ x. x.1.address ≡ x.0) (sym e) d.0
Among-addressed a n ((b, k) ∷ ns) d (inr m) = Among-addressed a n ns d.1 m

pub assign-AllAddressed :
    (a : Text) (n : VisualizationNode) (ns : Entries)
    → n.address ≡ a
    → AllAddressed ns
    → AllAddressed (Assoc.assign a n ns)
unfolding Assoc.assign
assign-AllAddressed a n [] e h = (e, tt)
assign-AllAddressed a n ((b, k) ∷ ns) e h = elim (Bool-cases (b == a)) [
  | inl s ↦ rw s (e ∙ sym ((text_beq_iff b a).0 s), h.1)
  | inr s ↦ rw s (h.0, assign-AllAddressed a n ns e h.1)
]

-- A slot of a node in the list is reserved, and a session is entered on it.
module _ (user : User) (name : Text) (t : Tracker) (v : Inv t) (a : Text) (n n' : VisualizationNode)
    (p : ℕ) (there : Among (a, n) t.nodes.node_list) (r : Reserved n p n') where
  abbrev m' : NodeManager
  m' = put_node a n' t.nodes

  same_address : n'.address ≡ a
  same_address = r.address_same ∙ Among-addressed a n _ v.nodes_valid.addressed there

  found : Assoc.find a t.nodes.node_list ≡ some n
  found = Among-find a n _ v.nodes_valid.keyed there

  entered-NodesValid : NodesValid m'
  entered-NodesValid = record {
    counted = assign-AllCounted a n' _ r.counted v.nodes_valid.counted;
    keyed = assign-Distinct a n' _ v.nodes_valid.keyed;
    addressed = assign-AllAddressed a n' _ same_address v.nodes_valid.addressed;
  }

  -- What was in use still is.
  still_held : (i : SessionInfo) → HoldsSlot i t.nodes → HoldsSlot i m'
  still_held i (node, f, g) = elim (Bool-cases (a == i.node_address)) [
    | inl s ↦ (
      n',
      ground (arith, find-assign a i.node_address n' t.nodes.node_list),
      ground (
        arith,
        r.marked,
        find-assign p i.node_port true n.slot_tracker,
        found,
        text_beq_iff a i.node_address,
      ),
    )
    | inr s ↦ (node, ground (arith, find-assign a i.node_address n' t.nodes.node_list), g)
  ]

  new_held : HoldsSlot (new_session user name n' p) m'
  new_held = (
    n',
    ground (
      arith,
      find-assign a n'.address n' t.nodes.node_list,
      text_beq_iff a n'.address,
      same_address,
    ),
    rw r.marked (ground (arith, find-assign p p true n.slot_tracker, nat_beq_iff p p)),
  )

  -- No session held the port that was free.
  not_held :
      (i : SessionInfo) → HoldsSlot i t.nodes → i.node_address ≡ n'.address → i.node_port ≡ p → ⊥
  not_held i (node, f, g) ea ep = ground (arith, found, r.was_free, same_address)

  abbrev s' : OpenSessions
  s' = set_session_info user name (new_session user name n' p) t.open_sessions

  -- A session of the new table is the new one or an old one.
  entered-cases :
      (u k : Text) (i : SessionInfo)
      → session_at u k s' ≡ some i
      → ((get_user_name user ≡ u) × (name ≡ k) × (i ≡ new_session user name n' p))
        ⊎ (session_at u k t.open_sessions ≡ some i)
  entered-cases u k i e = elim (Bool-cases ((get_user_name user == u) && (name == k))) [
    | inl new ↦ inl (
        ground (
          arith,
          session_at-set user name (new_session user name n' p) t.open_sessions u k,
          text_beq_iff (get_user_name user) u,
          text_beq_iff name k,
        ))
    | inr old ↦
        inr (
          ground (arith, session_at-set user name (new_session user name n' p) t.open_sessions u k))
  ]

  pub entered-Inv : Inv (enter_session user name n' p m' t).2
  unfolding enter_session
  entered-Inv = record {
    nodes_valid = entered-NodesValid;
    held = λ u k i e. elim (entered-cases u k i e) [
      | inl (_, _, new) ↦ subst (λ j. HoldsSlot j m') (sym new) new_held
      | inr old ↦ still_held i (v.held u k i old)
    ];
    exclusive = λ u k u' k' i i' e e' ea ep. elim (entered-cases u k i e) [
      | inl (eu, ek, new) ↦ elim (entered-cases u' k' i' e') [
        | inl (eu', ek', _) ↦ (sym eu ∙ eu', sym ek ∙ ek')
        | inr old ↦ absurd (
            not_held i' (v.held u' k' i' old) (sym ea ∙ ap (λ j. j.node_address) new)
              (sym ep ∙ ap (λ j. j.node_port) new))
      ]
      | inr old ↦ elim (entered-cases u' k' i' e') [
        | inl (_, _, new) ↦ absurd (
            not_held i (v.held u k i old) (ea ∙ ap (λ j. j.node_address) new)
              (ep ∙ ap (λ j. j.node_port) new))
        | inr old' ↦ v.exclusive u k u' k' i i' old old' ea ep
      ]
    ];
  }
