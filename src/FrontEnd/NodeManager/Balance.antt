-- ===== src/FrontEnd/NodeManager/Balance.antt =====
-- Which node the load balancing chooses.
use re_mo_lon.Common.{
  ℕ, ◌≤◌, ◌<◌, ◌≡◌, refl, ◌⊎◌, inl, inr, List, [], ◌∷◌, Option, none, some, arith, ltb, Bool-cases,
  ltb→lt, ltb→le,
}
use re_mo_lon.Common.Eq.{Text}
use re_mo_lon.FrontEnd.VisualizationNode.{VisualizationNode, get_available_stream_slots_count}
use re_mo_lon.FrontEnd.NodeManager.{
  NodeManager, best_from, find_best, first_available, find, find_best_node,
}

abbrev pub Entries : Type 0
Entries = List (Text × VisualizationNode)

-- One of the entries.
abbrev pub Among : Text × VisualizationNode → Entries → Type 0
Among x [] = ⊥
Among x (y ∷ ys) = (x ≡ y) ⊎ Among x ys

-- No entry has more than `k` slots available.
abbrev pub AtMost : ℕ → Entries → Type 0
AtMost k [] = Unit {0}
AtMost k ((a, n) ∷ ns) = (get_available_stream_slots_count n ≤ k) × AtMost k ns

-- A choice among the entries: one that has slots and no fewer than any other, or none has any.
abbrev pub BestOf : Entries → Option (Text × VisualizationNode) → Type 0
BestOf ns none = AtMost 0 ns
BestOf ns (some (a, n)) =
    Among (a, n) ns
    × (0 < get_available_stream_slots_count n)
    × AtMost (get_available_stream_slots_count n) ns

AtMost-mono : (k j : ℕ) (ns : Entries) → k ≤ j → AtMost k ns → AtMost j ns
AtMost-mono k j [] h m = m
AtMost-mono k j ((a, n) ∷ ns) h m = (omega (arith, m.0), AtMost-mono k j ns h m.1)

-- The loop of `findBest`, from a candidate with `most` slots: it ends with the candidate where no
-- entry has more, and else with an entry that has more than it and no fewer than any other.
best_from-cases :
    (best : Option (Text × VisualizationNode)) (most : ℕ) (ns : Entries)
    → (AtMost most ns × (best_from best most ns ≡ best))
      ⊎ ((a : Text) × (n : VisualizationNode) × (best_from best most ns ≡ some (a, n))
          × Among (a, n) ns
          × (most < get_available_stream_slots_count n)
          × AtMost (get_available_stream_slots_count n) ns)
unfolding best_from
best_from-cases best most [] = inl (tt, refl)
best_from-cases best most ((a, n) ∷ ns) =
    let k : ℕ = get_available_stream_slots_count n in
    elim (Bool-cases (ltb most k)) [
      | inl more ↦ elim (best_from-cases (some (a, n)) k ns) [
        | inl (top, e) ↦ inr (a, n, rw more e, inl refl, ltb→lt _ _ more, (omega arith, top))
        | inr (b, m, e, there, above, top) ↦ inr (
          b,
          m,
          rw more e,
          inr there,
          omega (arith, ltb→lt _ _ more, above),
          (omega (arith, above), top),
        )
      ]
      | inr less ↦ elim (best_from-cases best most ns) [
        | inl (top, e) ↦ inl ((ltb→le _ _ less, top), rw less e)
        | inr (b, m, e, there, above, top) ↦
            inr (b, m, rw less e, inr there, above, (omega (arith, ltb→le _ _ less, above), top))
      ]
    ]

-- The balanced choice is an entry of the node list that has slots available and no fewer than any
-- other entry, and there is none only where no entry has any.
pub find_best-BestOf : (m : NodeManager) → BestOf m.node_list (find_best m)
unfolding find_best
find_best-BestOf m = elim (best_from-cases none 0 m.node_list) [
  | inl (top, e) ↦ rw e top
  | inr (a, n, e, there, above, top) ↦ rw e (there, above, top)
]

-- Without it the chosen node is one with slots available.
abbrev pub AnyOf : Entries → Option (Text × VisualizationNode) → Type 0
AnyOf ns none = AtMost 0 ns
AnyOf ns (some (a, n)) = Among (a, n) ns × (0 < get_available_stream_slots_count n)

first_available-AnyOf : (ns : Entries) → AnyOf ns (first_available ns)
unfolding first_available
first_available-AnyOf [] = tt
first_available-AnyOf ((a, n) ∷ ns) =
    elim (Bool-cases (ltb 0 (get_available_stream_slots_count n))) [
      | inl free ↦ rw free (inl refl, ltb→lt _ _ free)
      | inr full ↦ rw full (later (first_available ns) (first_available-AnyOf ns) (ltb→le _ _ full))
    ]
  where
    later :
        (r : Option (Text × VisualizationNode))
        → AnyOf ns r
        → get_available_stream_slots_count n ≤ 0
        → AnyOf ((a, n) ∷ ns) r
    later none h z = (z, h)
    later (some (b, m)) h z = (inr h.0, h.1)

-- With load balancing on or off the chosen node is an entry of the node list with a slot
-- available, and none is chosen only where no entry has one.
pub find_best_node-AnyOf : (m : NodeManager) → AnyOf m.node_list (find_best_node m)
unfolding find_best_node find find_best
find_best_node-AnyOf m = elim (Bool-cases m.enable_load_balance) [
  | inl on ↦ rw on (weaker (find_best m) (find_best-BestOf m))
  | inr off ↦ rw off (first_available-AnyOf m.node_list)
]
  where
    weaker : (r : Option (Text × VisualizationNode)) → BestOf m.node_list r → AnyOf m.node_list r
    weaker none h = h
    weaker (some (a, n)) h = (h.0, h.1)
