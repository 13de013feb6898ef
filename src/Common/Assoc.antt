-- ===== src/Common/Assoc.antt =====
-- `std::unordered_map` as an association list: the order of the list is the order of iteration.
-- A new key goes to the end; the standard leaves its place open.
use mathlib.Core.Option.{Option, none, some}
use re_mo_lon.Common.{
  ℕ, ◌+◌, ◌≡◌, refl, sym, ap, subst, ◌∙◌, append_assoc, append-nil, false, List, [], ◌∷◌, ◌++◌,
  arith, if◌then◌else◌, length,
}
use re_mo_lon.Common.Eq.{Eq, ◌==◌, ==_refl, ==_flip}

module _ {ℓ κ} {K : Type ℓ} {V : Type κ} ⦃e : Eq K⦄ where
  -- m.find ( k )
  unfoldable pub find : K → List (K × V) → Option V
  find k [] = none
  find k ((j, v) ∷ m) = if j == k then some v else find k m

  -- m [ k ] = v
  unfoldable pub assign : K → V → List (K × V) → List (K × V)
  assign k v [] = (k, v) ∷ []
  assign k v ((j, w) ∷ m) = if j == k then (j, v) ∷ m else (j, w) ∷ assign k v m

  -- m.erase ( k )
  unfoldable pub erase : K → List (K × V) → List (K × V)
  erase k [] = []
  erase k ((j, w) ∷ m) = if j == k then erase k m else (j, w) ∷ erase k m

  pub find-nil : (k : K) → (let m : List (K × V) = [] in find k m) ≡ none
  unfolding find
  find-nil k = refl

  pub find-assign :
      (k j : K) (v : V) (m : List (K × V))
      → find j (assign k v m) ≡ (if k == j then some v else find j m)
  unfolding find assign
  find-assign k j v [] = refl
  find-assign k j v ((i, w) ∷ m) =
      ground (arith, e.test_iff k j, e.test_iff i k, e.test_iff i j, find-assign k j v m)

  pub find-erase :
      (k j : K) (m : List (K × V)) → find j (erase k m) ≡ (if k == j then none else find j m)
  unfolding find erase
  find-erase k j [] = ground arith
  find-erase k j ((i, w) ∷ m) =
      ground (arith, e.test_iff k j, e.test_iff i k, e.test_iff i j, find-erase k j m)

  pub find-assign_self : (k : K) (v : V) (m : List (K × V)) → find k (assign k v m) ≡ some v
  find-assign_self k v m = ground (arith, find-assign k k v m, ==_refl k)

  pub find-erase_self : (k : K) (m : List (K × V)) → find k (erase k m) ≡ none
  find-erase_self k m = ground (arith, find-erase k k m, ==_refl k)

  -- A write to a key that is there keeps the number of entries.
  pub length-assign :
      (k : K) (v : V) (m : List (K × V))
      → length (assign k v m)
        ≡ elim (find k m) as (λ _. ℕ) [ none ↦ length m + 1 | some _ ↦ length m ]
  unfolding find assign
  length-assign k v [] = omega arith
  length-assign k v ((i, w) ∷ m) = ground (arith, length-assign k v m)

  -- The keys are distinct.
  abbrev pub Absent : K → List (K × V) → Type ℓ
  Absent k [] = Unit
  Absent k ((j, v) ∷ m) = ((j == k) ≡ false) × Absent k m

  abbrev pub Distinct : List (K × V) → Type ℓ
  Distinct [] = Unit
  Distinct ((k, v) ∷ m) = Absent k m × Distinct m

  pub find-Absent : (k : K) (m : List (K × V)) → Absent k m → find k m ≡ none
  unfolding find
  find-Absent k [] h = refl
  find-Absent k ((j, v) ∷ m) h = ground (arith, find-Absent k m h.1)

  pub assign-Absent :
      (k j : K) (v : V) (m : List (K × V)) → Absent k m → (j == k) ≡ false → Absent k (assign j v m)
  unfolding assign
  assign-Absent k j v [] h n = ground arith
  assign-Absent k j v ((i, w) ∷ m) h n = ground (arith, assign-Absent k j v m h.1 n)

  pub assign-Distinct : (k : K) (v : V) (m : List (K × V)) → Distinct m → Distinct (assign k v m)
  unfolding assign
  assign-Distinct k v [] h = ground arith
  assign-Distinct k v ((i, w) ∷ m) h =
      ground (arith, assign-Distinct k v m h.1, ==_flip i k, assign-Absent i k v m h.0)

  pub erase-Absent : (k j : K) (m : List (K × V)) → Absent k m → Absent k (erase j m)
  unfolding erase
  erase-Absent k j [] h = h
  erase-Absent k j ((i, w) ∷ m) h = ground (arith, erase-Absent k j m h.1)

  pub erase-Distinct : (k : K) (m : List (K × V)) → Distinct m → Distinct (erase k m)
  unfolding erase
  erase-Distinct k [] h = h
  erase-Distinct k ((i, w) ∷ m) h = ground (arith, erase-Distinct k m h.1, erase-Absent i k m h.0)

  -- Writing what is there changes nothing.
  pub assign-find : (k : K) (v : V) (m : List (K × V)) → find k m ≡ some v → assign k v m ≡ m
  unfolding find assign
  assign-find k v [] h = cc
  assign-find k v ((i, w) ∷ m) h = ground (arith, assign-find k v m)

  pub assign-append :
      (k : K) (v : V) (m : List (K × V)) → Absent k m → assign k v m ≡ m ++ ((k, v) ∷ [])
  unfolding assign
  assign-append k v [] h = refl
  assign-append k v ((i, w) ∷ m) h = ground (arith, assign-append k v m h.1)

  -- The later of two writes to a key stays.
  pub assign-assign :
      (k : K) (v w : V) (m : List (K × V)) → assign k w (assign k v m) ≡ assign k w m
  unfolding assign
  assign-assign k v w [] = ground (arith, ==_refl k)
  assign-assign k v w ((i, x) ∷ m) = ground (arith, assign-assign k v w m)

  -- All the entries of a list, written in turn.
  abbrev pub assign_all : List (K × V) → List (K × V) → List (K × V)
  assign_all [] m = m
  assign_all ((k, v) ∷ l) m = assign_all l (assign k v m)

  Absent-middle :
      (j k : K) (v : V) (m l : List (K × V)) → Absent j (m ++ ((k, v) ∷ l)) → (k == j) ≡ false
  Absent-middle j k v [] l h = h.0
  Absent-middle j k v ((i, w) ∷ m) l h = Absent-middle j k v m l h.1

  pub Absent-append :
      (k : K) (v : V) (m l : List (K × V)) → Distinct (m ++ ((k, v) ∷ l)) → Absent k m
  Absent-append k v [] l h = tt
  Absent-append k v ((j, w) ∷ m) l (away, h) =
      (==_flip j k ∙ Absent-middle j k v m l away, Absent-append k v m l h)

  -- Entries with new keys go behind those that are there.
  pub assign_all-append : (l m : List (K × V)) → Distinct (m ++ l) → assign_all l m ≡ m ++ l
  assign_all-append [] m h = sym (append-nil m)
  assign_all-append ((k, v) ∷ l) m h =
      let last : List (K × V) = m ++ ((k, v) ∷ []) in
      let whole : last ++ l ≡ m ++ ((k, v) ∷ l) = append_assoc m ((k, v) ∷ []) l in
      ap (assign_all l) (assign-append k v m (Absent-append k v m l h))
      ∙ (assign_all-append l last (subst Distinct (sym whole) h) ∙ whole)
