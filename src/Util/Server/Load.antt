-- ===== src/Util/Server/Load.antt =====
-- The selector thread that gets a connection has no more than any other.
use re_mo_lon.Common.{
  ℕ, zero, suc, ◌+◌, ◌≤◌, ◌<◌, ◌≡◌, refl, ap, ◌∙◌, ◌⊎◌, inl, inr, List, [], ◌∷◌, Option, none, some,
  ltb, arith, Bool-cases, ltb→lt, ltb→le,
}
use re_mo_lon.Util.Connection.{Connection}
use re_mo_lon.Util.SelectorThread.{Connections, get_num_connections}
use re_mo_lon.Util.Server.{less_loaded, add_at, assign_connection_to_worker}

-- Every worker has `k` connections or more.
abbrev pub AllAtLeast : ℕ → List Connections → Type 0
AllAtLeast k [] = Unit {0}
AllAtLeast k (worker ∷ workers) = (k ≤ get_num_connections worker) × AllAtLeast k workers

-- A worker of the list at a position.
abbrev pub At : ℕ → Connections → List Connections → Type 0
At i w [] = ⊥
At zero w (worker ∷ workers) = worker ≡ w
At (suc i) w (worker ∷ workers) = At i w workers

less_loaded-cases :
    (i : ℕ) (best : Option ℕ) (less_load : ℕ) (ws : List Connections)
    → (AllAtLeast less_load ws × (less_loaded i best less_load ws ≡ best))
      ⊎ ((j : ℕ) × (w : Connections) × (less_loaded i best less_load ws ≡ some (i + j))
          × At j w ws
          × (get_num_connections w < less_load)
          × AllAtLeast (get_num_connections w) ws)
unfolding less_loaded
less_loaded-cases i best less_load [] = inl (tt, refl)
less_loaded-cases i best less_load (worker ∷ ws) =
    let load = get_num_connections worker in
    elim (Bool-cases (ltb load less_load)) [
      | inl less ↦
          let lower = ltb→lt load less_load less in
          elim (less_loaded-cases (i + 1) (some i) load ws) [
            | inl (top, e) ↦
                inr
                  (0, worker, rw less (e ∙ ap some (omega arith)), refl, lower, (omega arith, top))
            | inr (j, w, e, there, below, top) ↦ inr (
              suc j,
              w,
              rw less (e ∙ ap some (omega arith)),
              there,
              omega (arith, below, lower),
              (omega (arith, below), top),
            )
          ]
      | inr more ↦
          let upper = ltb→le load less_load more in
          elim (less_loaded-cases (i + 1) best less_load ws) [
            | inl (top, e) ↦ inl ((upper, top), rw more e)
            | inr (j, w, e, there, below, top) ↦ inr (
              suc j,
              w,
              rw more (e ∙ ap some (omega arith)),
              there,
              below,
              (omega (arith, upper, below), top),
            )
          ]
    ]

-- A new connection is added to a selector thread that has no more connections than any other, or
-- every selector thread has 999999 connections or more and none changes.
pub assign_connection_to_worker_lem :
    (c : Connection) (ws : List Connections)
    → (AllAtLeast 999999 ws × (assign_connection_to_worker c ws ≡ ws))
      ⊎ ((j : ℕ) × (w : Connections) × At j w ws
          × AllAtLeast (get_num_connections w) ws
          × (assign_connection_to_worker c ws ≡ add_at j c ws))
unfolding assign_connection_to_worker
assign_connection_to_worker_lem c ws = elim (less_loaded-cases 0 none 999999 ws) [
  | inl (full, e) ↦ inl (full, rw (assign_connection_to_worker, e))
  | inr (j, w, e, there, _, top) ↦
      let same : 0 + j ≡ j = omega arith in
      inr (j, w, there, top, rw (assign_connection_to_worker, e) (ap (λ k. add_at k c ws) same))
]
