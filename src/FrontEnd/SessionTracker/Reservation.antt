-- ===== src/FrontEnd/SessionTracker/Reservation.antt =====
-- The search for a slot ends at once where the nodes count their slots, and never where the chosen
-- node counts a slot that its table does not have.
use re_mo_lon.Common.{
  ℕ, zero, suc, ◌≡◌, refl, sym, ap, subst, ◌⊎◌, inl, inr, [], ◌∷◌, none, some, false, arith,
  Bool-cases, Option-cases,
}
use re_mo_lon.Common.Eq.{Text, text_eq, ◌==◌}
use re_mo_lon.Common.Assoc
use re_mo_lon.Common.Assoc.{assign-find}
use re_mo_lon.FrontEnd.VisualizationNode.{VisualizationNode, first_free, try_reserve_slot}
use re_mo_lon.FrontEnd.VisualizationNode.Slots.{IsCounted, Reserved, try_reserve_slot_lem}
use re_mo_lon.FrontEnd.NodeManager.{NodeManager, find_best_node, put_node}
use re_mo_lon.FrontEnd.NodeManager.Balance.{Entries, Among, AtMost, AnyOf, find_best_node-AnyOf}
use re_mo_lon.FrontEnd.SessionTracker.{search_slot, reserved, no_node, still_searching}

abbrev pub AllCounted : Entries → Type 0
AllCounted [] = Unit {0}
AllCounted ((a, n) ∷ ns) = IsCounted n × AllCounted ns

pub AllCounted-Among :
    (a : Text) (n : VisualizationNode) (ns : Entries)
    → AllCounted ns
    → Among (a, n) ns
    → IsCounted n
AllCounted-Among a n [] h m = absurd m
AllCounted-Among a n ((b, m) ∷ ns) h (inl e) = subst (λ x. IsCounted x.1) (sym e) h.0
AllCounted-Among a n ((b, m) ∷ ns) h (inr later) = AllCounted-Among a n ns h.1 later

pub assign-AllCounted :
    (a : Text) (n : VisualizationNode) (ns : Entries)
    → IsCounted n
    → AllCounted ns
    → AllCounted (Assoc.assign a n ns)
unfolding Assoc.assign
assign-AllCounted a n [] v h = (v, tt)
assign-AllCounted a n ((b, m) ∷ ns) v h = elim (Bool-cases (b == a)) [
  | inl e ↦ rw e (v, h.1)
  | inr e ↦ rw e (h.0, assign-AllCounted a n ns v h.1)
]

-- Where every node counts its slots, the search for a slot ends in its first round: no node has a
-- slot available, or the node that the balancer chose has one more slot in use, which was free.
pub search_slot_ends :
    (fuel attempt port : ℕ) (m : NodeManager)
    → AllCounted m.node_list
    → ((AtMost 0 m.node_list) × (search_slot (suc fuel) attempt port m ≡ no_node))
      ⊎ ((a : Text) × (n n' : VisualizationNode) × (p : ℕ) × (search_slot (suc fuel) attempt port m
            ≡ reserved a n' p (put_node a n' m))
          × Among (a, n) m.node_list
          × (find_best_node m ≡ some (a, n))
          × Reserved n p n')
unfolding search_slot
search_slot_ends fuel attempt port m h = elim (Option-cases (find_best_node m)) [
  | inl e ↦ inl (subst (AnyOf m.node_list) e (find_best_node-AnyOf m), rw (e, search_slot))
  | inr ((a, n), e) ↦
      let (there, free) = subst (AnyOf m.node_list) e (find_best_node-AnyOf m) in
      elim (try_reserve_slot_lem port n (AllCounted-Among a n m.node_list h there)) [
        | inl (full, _) ↦ absurd (omega arith)
        | inr (p, n', took, r) ↦ inr (a, n, n', p, rw (e, search_slot, took), there, e, r)
      ]
]

reserve_fails :
    (port : ℕ) (n : VisualizationNode)
    → first_free n.slot_tracker ≡ none
    → try_reserve_slot port n ≡ ((false, port), n)
unfolding try_reserve_slot
reserve_fails port n s = ground arith

-- Where the balancer chooses a node whose table has no free slot, the search for a slot does not
-- end within any number of rounds.
pub search_slot_stuck :
    (fuel port : ℕ) (m : NodeManager) (a : Text) (n : VisualizationNode)
    → find_best_node m ≡ some (a, n)
    → Assoc.find a m.node_list ≡ some n
    → first_free n.slot_tracker ≡ none
    → search_slot fuel 0 port m ≡ still_searching
unfolding search_slot
search_slot_stuck zero port m a n e f s = refl
search_slot_stuck (suc fuel) port m a n e f s =
    let failed : try_reserve_slot port n ≡ ((false, port), n) = reserve_fails port n s in
    let same : put_node a n m ≡ m =
      ap (λ l. record m { node_list = l }) (assign-find a n m.node_list f) in
    rw (e, search_slot, failed, same) (search_slot_stuck fuel port m a n e f s)
