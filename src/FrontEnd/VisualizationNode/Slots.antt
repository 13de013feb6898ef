-- ===== src/FrontEnd/VisualizationNode/Slots.antt =====
-- The slot counters of a node against its slot table.
use re_mo_lon.Common.{
  ℕ, ◌+◌, ◌%◌, ◌^◌, ◌≤◌, ◌<◌, ◌≡◌, refl, sym, ◌∙◌, List, [], ◌∷◌, none, some, Bool, true, false,
  arith, ltb, if◌then◌else◌, length, ◌⊎◌, inl, inr, lt→ltb, le→ltb, nat_beq_iff,
}
use re_mo_lon.Common.Eq.{nat_eq, ◌==◌, ==_refl}
use re_mo_lon.Common.Assoc.{find, assign, length-assign, Distinct, find-Absent, assign-Distinct}
use re_mo_lon.FrontEnd.VisualizationNode.{
  VisualizationNode, first_free, try_reserve_slot, release_slot, get_available_stream_slots_count,
}

abbrev pub count_used : List (ℕ × Bool) → ℕ
count_used [] = 0
count_used ((p, used) ∷ slots) = (if used then 1 else 0) + count_used slots

-- The counters are those of the table, whose ports are distinct and no more than an `int` can say.
pub record IsCounted (n : VisualizationNode) : Type 0 where
  pub total : n.total_slots ≡ length n.slot_tracker
  pub used : n.used_slots ≡ count_used n.slot_tracker
  pub small : length n.slot_tracker < 2 ^ 31
  pub distinct : Distinct n.slot_tracker

pub count_used-le : (slots : List (ℕ × Bool)) → count_used slots ≤ length slots
count_used-le [] = omega arith
count_used-le ((p, used) ∷ slots) = ground (arith, count_used-le slots)

pub count_used-assign :
    (port : ℕ) (slots : List (ℕ × Bool))
    → find port slots ≡ some false
    → count_used (assign port true slots) ≡ count_used slots + 1
unfolding find assign
count_used-assign port [] e = cc
count_used-assign port ((p, used) ∷ slots) e = ground (arith, count_used-assign port slots)

pub length-assign_old :
    (port : ℕ) (u v : Bool) (slots : List (ℕ × Bool))
    → find port slots ≡ some u
    → length (assign port v slots) ≡ length slots
length-assign_old port u v slots e = length-assign port v slots ∙ rw e

-- `first_free` marks a port whose slot was free, and finds none only where all are in use.
pub first_free-cases :
    (slots : List (ℕ × Bool))
    → Distinct slots
    → ((count_used slots ≡ length slots) × (first_free slots ≡ none))
      ⊎ ((port : ℕ) × (first_free slots ≡ some (port, assign port true slots))
          × (find port slots ≡ some false))
unfolding first_free find assign
first_free-cases [] h = inl (refl, refl)
first_free-cases ((p, false) ∷ slots) h =
    inr (p, ground (arith, ==_refl p), ground (arith, ==_refl p))
first_free-cases ((p, true) ∷ slots) h = elim (first_free-cases slots h.1) [
  | inl (full, e) ↦ inl (omega (arith, full), rw e)
  | inr (q, e, free) ↦
      let other : (p == q) ≡ false =
        ground (arith, free, find-Absent p slots h.0, nat_beq_iff p q) in
      inr (q, rw (e, other), rw other free)
]

pub available_lem :
    (n : VisualizationNode)
    → IsCounted n
    → get_available_stream_slots_count n + count_used n.slot_tracker ≡ length n.slot_tracker
available_lem n v = omega (arith, v.total, v.used, v.small, count_used-le n.slot_tracker)

-- A reservation: one free slot of the node has become used, and the counter with it.
pub record Reserved (n : VisualizationNode) (port : ℕ) (n' : VisualizationNode) : Type 0 where
  pub was_free : find port n.slot_tracker ≡ some false
  pub marked : n'.slot_tracker ≡ assign port true n.slot_tracker
  pub counted : IsCounted n'
  pub one_less : get_available_stream_slots_count n' + 1 ≡ get_available_stream_slots_count n
  pub address_same : n'.address ≡ n.address
  pub con_same : n'.con ≡ n.con

-- On a node that counts its slots, a reservation fails and changes nothing where no slot is
-- available; otherwise it succeeds, a port that was free is in use, one slot fewer is available,
-- and the node still counts its slots.
pub try_reserve_slot_lem :
    (d : ℕ) (n : VisualizationNode)
    → IsCounted n
    → ((get_available_stream_slots_count n ≡ 0) × (try_reserve_slot d n ≡ ((false, d), n)))
      ⊎ ((port : ℕ) × (n' : VisualizationNode) × (try_reserve_slot d n ≡ ((true, port), n'))
          × Reserved n port n')
unfolding try_reserve_slot
try_reserve_slot_lem d n v = elim (first_free-cases n.slot_tracker v.distinct) [
  | inl (full, e) ↦
      let nothing : get_available_stream_slots_count n ≡ 0 =
        omega (arith, available_lem n v, full) in
      let closed : ltb 0 (get_available_stream_slots_count n) ≡ false = le→ltb _ _ (omega arith) in
      inl (nothing, rw closed)
  | inr (port, e, free) ↦
      let slots : List (ℕ × Bool) = assign port true n.slot_tracker in
      let more = count_used-assign port n.slot_tracker free in
      let same : length slots ≡ length n.slot_tracker = length-assign_old port false true _ free in
      let n' : VisualizationNode = record n {
        slot_tracker = slots;
        used_slots = (n.used_slots + 1) % 2 ^ 32;
      } in
      let c : IsCounted n' = record {
        total = v.total ∙ sym same;
        used = omega (arith, v.used, more, v.small, count_used-le n.slot_tracker);
        small = omega (arith, same, v.small);
        distinct = assign-Distinct port true n.slot_tracker v.distinct;
      } in
      let less : get_available_stream_slots_count n' + 1 ≡ get_available_stream_slots_count n =
        omega (arith, available_lem n v, available_lem n' c, more, same) in
      let open_ : ltb 0 (get_available_stream_slots_count n) ≡ true =
        lt→ltb _ _ (omega (arith, less)) in
      inr (
        port,
        n',
        rw (open_, e, try_reserve_slot),
        record {
          was_free = free;
          marked = refl;
          counted = c;
          one_less = less;
          address_same = refl;
          con_same = refl;
        },
      )
]

-- `releaseSlot` frees the slot in the table and leaves the counter, so no slot becomes available.
pub release_slot-available :
    (port : ℕ) (n : VisualizationNode)
    → get_available_stream_slots_count (release_slot port n) ≡ get_available_stream_slots_count n
unfolding release_slot
release_slot-available port n = ground arith
