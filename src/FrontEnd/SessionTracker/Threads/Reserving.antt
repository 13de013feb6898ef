-- ===== src/FrontEnd/SessionTracker/Threads/Reserving.antt =====
-- The slots of creations that are under way, and a reservation among them.
use re_mo_lon.Common.{
  ℕ, ◌≡◌, sym, ap, subst, ◌∙◌, ◌⊎◌, inl, inr, [], ◌∷◌, Option, none, some, true, nat_beq,
  nat_beq_iff, arith, Bool-cases,
}
use re_mo_lon.Common.Eq.{Text, text_eq, nat_eq, text_beq_iff, ◌==◌}
use re_mo_lon.Common.Assoc
use re_mo_lon.Common.Assoc.{find-assign, assign-Distinct}
use re_mo_lon.FrontEnd.User.{User}
use re_mo_lon.FrontEnd.VisualizationNode.{VisualizationNode}
use re_mo_lon.FrontEnd.VisualizationNode.Slots.{IsCounted, Reserved}
use re_mo_lon.FrontEnd.NodeManager.{NodeManager, put_node}
use re_mo_lon.FrontEnd.NodeManager.Balance.{Entries}
use re_mo_lon.FrontEnd.SessionTracker.{SessionInfo}
use re_mo_lon.FrontEnd.SessionTracker.Reservation.{AllCounted, assign-AllCounted}
use re_mo_lon.FrontEnd.SessionTracker.Lookup.{session_at}
use re_mo_lon.FrontEnd.SessionTracker.Exclusive.{AllAddressed, NodesValid, Inv, assign-AllAddressed}
use re_mo_lon.FrontEnd.SessionTracker.Threads.{Flight, Shared, set_flight}

-- The port is in use in the node at the address.
abbrev pub HeldAt : Text → ℕ → NodeManager → Type 0
HeldAt a p m =
    (node : VisualizationNode) × (Assoc.find a m.node_list ≡ some node)
    × (Assoc.find p node.slot_tracker ≡ some true)

-- The invariant of the tracker, and the slots of the creations that are under way: each is in use, no
-- session has it, and no other creation.
pub record SharedInv (s : Shared) : Type 0 where
  pub sessions : Inv s.tracker
  pub flying : (i : ℕ) (f : Flight) → s.flights i ≡ some f → HeldAt f.address f.port s.tracker.nodes
  pub apart :
      (i : ℕ) (f : Flight) (u n : Text) (info : SessionInfo)
      → s.flights i ≡ some f
      → session_at u n s.tracker.open_sessions ≡ some info
      → info.node_address ≡ f.address
      → info.node_port ≡ f.port
      → ⊥
  pub alone :
      (i j : ℕ) (f g : Flight)
      → s.flights i ≡ some f
      → s.flights j ≡ some g
      → f.address ≡ g.address
      → f.port ≡ g.port
      → i ≡ j

pub find-AllCounted :
    (a : Text) (n : VisualizationNode) (ns : Entries)
    → AllCounted ns
    → Assoc.find a ns ≡ some n
    → IsCounted n
unfolding Assoc.find
find-AllCounted a n [] h e = cc
find-AllCounted a n ((b, k) ∷ ns) (v, h) e = elim (Bool-cases (b == a)) [
  | inl s ↦ let same : k ≡ n = ground (arith, e, s) in subst IsCounted same v
  | inr s ↦ find-AllCounted a n ns h (ground (arith, e, s))
]

pub find-AllAddressed :
    (a : Text) (n : VisualizationNode) (ns : Entries)
    → AllAddressed ns
    → Assoc.find a ns ≡ some n
    → n.address ≡ a
unfolding Assoc.find
find-AllAddressed a n [] h e = cc
find-AllAddressed a n ((b, k) ∷ ns) (v, h) e = elim (Bool-cases (b == a)) [
  | inl s ↦
      let same : k ≡ n = ground (arith, e, s) in
      ap (λ x. x.address) (sym same) ∙ v ∙ (text_beq_iff b a).0 s
  | inr s ↦ find-AllAddressed a n ns h (ground (arith, e, s))
]

-- A slot is reserved on the node at an address.
module _ (m : NodeManager) (v : NodesValid m) (a : Text) (n n' : VisualizationNode) (p : ℕ)
    (found : Assoc.find a m.node_list ≡ some n) (r : Reserved n p n') where
  abbrev m' : NodeManager
  m' = put_node a n' m

  reserved-NodesValid : NodesValid m'
  reserved-NodesValid = record {
    counted = assign-AllCounted a n' _ r.counted v.counted;
    keyed = assign-Distinct a n' _ v.keyed;
    addressed =
        assign-AllAddressed a n' _ (r.address_same ∙ find-AllAddressed a n _ v.addressed found)
          v.addressed;
  }

  still_held : (b : Text) (q : ℕ) → HeldAt b q m → HeldAt b q m'
  still_held b q (node, f, g) = elim (Bool-cases (a == b)) [
    | inl s ↦ (
      n',
      ground (arith, find-assign a b n' m.node_list),
      ground (arith, r.marked, find-assign p q true n.slot_tracker, found, text_beq_iff a b),
    )
    | inr s ↦ (node, ground (arith, find-assign a b n' m.node_list), g)
  ]

  new_held : HeldAt a p m'
  new_held = (
    n',
    ground (arith, find-assign a a n' m.node_list, text_beq_iff a a),
    rw r.marked (ground (arith, find-assign p p true n.slot_tracker, nat_beq_iff p p)),
  )

  not_held : (b : Text) (q : ℕ) → HeldAt b q m → b ≡ a → q ≡ p → ⊥
  not_held b q (node, f, g) ea ep = ground (arith, found, r.was_free)

-- The creation of a thread after one is set.
set_flight-cases :
    (i j : ℕ) (x : Option Flight) (flights : ℕ → Option Flight) (f : Flight)
    → set_flight i x flights j ≡ some f
    → ((i ≡ j) × (x ≡ some f)) ⊎ (flights j ≡ some f)
set_flight-cases i j x flights f e = elim (Bool-cases (nat_beq i j)) [
  | inl s ↦ inl (ground (arith, e, s, nat_beq_iff i j))
  | inr s ↦ inr (ground (arith, e, s))
]

pub unset-cases :
    (i j : ℕ) (flights : ℕ → Option Flight) (f : Flight)
    → set_flight i none flights j ≡ some f
    → flights j ≡ some f
unset-cases i j flights f e = elim (set_flight-cases i j none flights f e) [
  | inl (_, n) ↦ cc
  | inr old ↦ old
]

some-injective : (f g : Flight) → some f ≡ some g → f ≡ g
some-injective f g e = cc

-- A reservation for a thread.
module _ (s : Shared) (v : SharedInv s) (i : ℕ) (user : User) (name a : Text)
    (n n' : VisualizationNode) (p : ℕ) (found : Assoc.find a s.tracker.nodes.node_list ≡ some n)
    (r : Reserved n p n') where
  abbrev nodes : NodeManager
  nodes = s.tracker.nodes

  abbrev pub new : Flight
  new = record { user = user; name = name; address = a; port = p }

  abbrev pub reserved : Shared
  reserved = record {
    tracker = record s.tracker { nodes = put_node a n' s.tracker.nodes };
    flights = set_flight i (some new) s.flights;
  }

  held_same : (b : Text) (q : ℕ) → HeldAt b q nodes → HeldAt b q reserved.tracker.nodes
  held_same = still_held nodes v.sessions.nodes_valid a n n' p found r

  fresh : (b : Text) (q : ℕ) → HeldAt b q nodes → b ≡ a → q ≡ p → ⊥
  fresh = not_held nodes v.sessions.nodes_valid a n n' p found r

  at_new : (f : Flight) → some new ≡ some f → (f.address ≡ a) × (f.port ≡ p)
  at_new f e =
      let same = some-injective new f e in
      (sym (ap (λ x. x.address) same), sym (ap (λ x. x.port) same))

  pub reserved-SharedInv : SharedInv reserved
  reserved-SharedInv = record {
    sessions = record {
      nodes_valid = reserved-NodesValid nodes v.sessions.nodes_valid a n n' p found r;
      held = λ u k info e. held_same info.node_address info.node_port (v.sessions.held u k info e);
      exclusive = v.sessions.exclusive;
    };
    flying = λ j f e. elim (set_flight-cases i j (some new) s.flights f e) [
      | inl (_, same) ↦
          subst (λ x. HeldAt x.address x.port reserved.tracker.nodes) (some-injective new f same)
            (new_held nodes v.sessions.nodes_valid a n n' p found r)
      | inr old ↦ held_same f.address f.port (v.flying j f old)
    ];
    apart = λ j f u k info e d ea ep. elim (set_flight-cases i j (some new) s.flights f e) [
      | inl (_, same) ↦
          let (fa, fp) = at_new f same in
          fresh info.node_address info.node_port (v.sessions.held u k info d) (ea ∙ fa) (ep ∙ fp)
      | inr old ↦ v.apart j f u k info old d ea ep
    ];
    alone = λ j k f g e d ea ep. elim (set_flight-cases i j (some new) s.flights f e) [
      | inl (ij, same) ↦ elim (set_flight-cases i k (some new) s.flights g d) [
        | inl (ik, _) ↦ sym ij ∙ ik
        | inr old ↦
            let (fa, fp) = at_new f same in
            absurd (fresh g.address g.port (v.flying k g old) (sym ea ∙ fa) (sym ep ∙ fp))
      ]
      | inr old ↦ elim (set_flight-cases i k (some new) s.flights g d) [
        | inl (ik, same) ↦
            let (ga, gp) = at_new g same in
            absurd (fresh f.address f.port (v.flying j f old) (ea ∙ ga) (ep ∙ gp))
        | inr old' ↦ v.alone j k f g old old' ea ep
      ]
    ];
  }
