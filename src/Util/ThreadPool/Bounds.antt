-- ===== src/Util/ThreadPool/Bounds.antt =====
-- The bounds of the queue and of the pool.
use re_mo_lon.Common.{
  ℕ, suc, ap, ◌+◌, ◌-◌, ◌^◌, ◌≤◌, ◌<◌, ◌≡◌, refl, ◌⊎◌, inl, inr, List, [], ◌∷◌, ◌++◌, some, false,
  ltb, leb, arith, length, length-append, Bool-cases, ltb→lt, leb→le,
}
use re_mo_lon.Common.Outcome.{ok, throws, task_queue_full}
use re_mo_lon.Util.ThreadPool.{
  Worker, ThreadPool, purge_from, create_worker, purge_idle_threads, push, execute_task,
}

-- No worker in the pool has ended.
abbrev pub AllAlive : List Worker → Type 0
AllAlive [] = Unit {0}
AllAlive (w ∷ workers) = (w.terminated ≡ false) × AllAlive workers

purge_from_lem :
    (now max_idle min_size size : ℕ) (workers : List Worker)
    → min_size ≤ size
    → AllAlive workers
    → (rest : List Worker) × (k : ℕ) × (purge_from now max_idle min_size size workers
        ≡ some (rest, k))
      × (min_size ≤ k)
      × (k ≤ size)
      × AllAlive rest
unfolding purge_from
purge_from_lem now max_idle min_size size [] h alive = ([], size, refl, h, omega arith, tt)
purge_from_lem now max_idle min_size size (w ∷ workers) h (a, alive) =
    elim (Bool-cases (ltb min_size size)) [
      | inr full ↦ (w ∷ workers, size, rw full, h, omega arith, (a, alive))
      | inl more ↦ elim (Bool-cases (ltb max_idle (now - w.last_active_time))) [
        | inl idle ↦
            let lower = ltb→lt min_size size more in
            let (rest, k, e, low, high, left) =
              purge_from_lem now max_idle min_size (size - 1) workers (omega (arith, lower))
                alive in
            (
              record w { active = false } ∷ rest,
              k,
              ground (arith, more, a, idle, e),
              low,
              omega (arith, high),
              (a, left),
            )
        | inr busy ↦
            let (rest, k, e, low, high, left) =
              purge_from_lem now max_idle min_size size workers h alive in
            (w ∷ rest, k, ground (arith, more, a, busy, e), low, high, (a, left))
      ]
    ]

-- The queue is within its bound, and the pool no smaller than its minimum.
pub record IsBounded {T : Type 0} (p : ThreadPool T) : Type 0 where
  pub queue : length p.tasks ≤ p.max_queue_size
  pub workers : p.min_pool_size ≤ p.current_pool_size

AllAlive-append :
    (ws : List Worker) (w : Worker) → AllAlive ws → w.terminated ≡ false → AllAlive (ws ++ (w ∷ []))
AllAlive-append [] w alive e = (e, tt)
AllAlive-append (v ∷ ws) w (a, alive) e = (a, AllAlive-append ws w alive e)

-- The step from a pool to one with a task more.
pub record Queued {T : Type 0} (task : T) (p p' : ThreadPool T) : Type 0 where
  pub tasks_grow : p'.tasks ≡ p.tasks ++ (task ∷ [])
  pub limit_same : p'.max_queue_size ≡ p.max_queue_size
  pub alive : AllAlive p'.pool
  pub no_smaller : p'.min_pool_size ≤ p'.current_pool_size
  pub one_more : p'.current_pool_size ≤ p.current_pool_size + 1

execute_task-Queued :
    {T : Type 0} (now : ℕ) (task : T) (p : ThreadPool T)
    → p.min_pool_size ≤ p.current_pool_size
    → AllAlive p.pool
    → p.current_pool_size + 1 < 2 ^ 32
    → leb p.max_queue_size (length p.tasks) ≡ false
    → (p' : ThreadPool T) × (execute_task now task p ≡ ok tt p') × Queued task p p'
unfolding execute_task purge_idle_threads
execute_task-Queued now task p least alive small room =
    elim (Bool-cases (ltb p.current_pool_size (length p.tasks))) [
      | inl busy ↦ (
        push task (create_worker now p),
        rw (room, busy),
        record {
          tasks_grow = refl;
          limit_same = refl;
          alive = AllAlive-append p.pool _ alive refl;
          no_smaller = omega arith;
          one_more = omega arith;
        },
      )
      | inr idle ↦ elim (Bool-cases (ltb p.min_pool_size p.current_pool_size)) [
        | inr none_spare ↦ (
          push task p,
          rw (room, idle, none_spare),
          record {
            tasks_grow = refl;
            limit_same = refl;
            alive = alive;
            no_smaller = least;
            one_more = omega arith;
          },
        )
        | inl more ↦
            let (rest, k, e, low, high, left) =
              purge_from_lem now p.max_idle_time p.min_pool_size p.current_pool_size p.pool least
                alive in
            (
              push task (record p { pool = rest; current_pool_size = k }),
              rw (execute_task, room, idle, more, purge_idle_threads, e),
              record {
                tasks_grow = refl;
                limit_same = refl;
                alive = left;
                no_smaller = low;
                one_more = omega (arith, high);
              },
            )
      ]
    ]

-- For a pool whose queue is within its bound, whose size is at least its minimum and below 2 ^ 32
-- - 1, and none of whose workers has ended: where the queue is full a task is refused and nothing
-- changes; otherwise it goes to the end of the queue, and the queue is still within its bound and
-- the pool no smaller than its minimum.
pub execute_task-IsBounded :
    {T : Type 0} (now : ℕ) (task : T) (p : ThreadPool T)
    → IsBounded p
    → AllAlive p.pool
    → p.current_pool_size + 1 < 2 ^ 32
    → ((p.max_queue_size ≡ length p.tasks) × (execute_task now task p ≡ throws task_queue_full p))
      ⊎ ((p' : ThreadPool T) × (execute_task now task p ≡ ok tt p')
          × (p'.tasks ≡ p.tasks ++ (task ∷ []))
          × IsBounded p')
unfolding execute_task
execute_task-IsBounded now task p b alive small =
    elim (Bool-cases (leb p.max_queue_size (length p.tasks))) [
      | inl full ↦ inl (omega (arith, leb→le _ _ full, b.queue), rw full)
      | inr room ↦
          let (p', e, q) = execute_task-Queued now task p b.workers alive small room in
          inr (
            p',
            e,
            q.tasks_grow,
            record {
              queue = ground (
                arith,
                room,
                ap length q.tasks_grow,
                length-append p.tasks (task ∷ []),
                q.limit_same,
              );
              workers = q.no_smaller;
            },
          )
    ]

-- Room for `k` more tasks.
pub record IsReady {T : Type 0} (k : ℕ) (p : ThreadPool T) : Type 0 where
  pub workers : p.min_pool_size ≤ p.current_pool_size
  pub room : length p.tasks + k ≤ p.max_queue_size
  pub alive : AllAlive p.pool
  pub small : p.current_pool_size + k < 2 ^ 32

pub execute_task-IsReady :
    {T : Type 0} (now : ℕ) (task : T) (k : ℕ) (p : ThreadPool T)
    → IsReady (suc k) p
    → (p' : ThreadPool T) × (execute_task now task p ≡ ok tt p')
      × (p'.tasks ≡ p.tasks ++ (task ∷ []))
      × IsReady k p'
execute_task-IsReady now task k p r =
    let (p', e, q) =
      execute_task-Queued now task p r.workers r.alive (omega (arith, r.small))
        (ground (arith, r.room)) in
    (
      p',
      e,
      q.tasks_grow,
      record {
        workers = q.no_smaller;
        room = omega (
          arith,
          r.room,
          ap length q.tasks_grow,
          length-append p.tasks (task ∷ []),
          q.limit_same,
        );
        alive = q.alive;
        small = omega (arith, r.small, q.one_more);
      },
    )
