-- ===== src/Util/ThreadPool.antt =====
-- ReMoLON_Util/ThreadPool.h. The mutexes of the tasks and of the pool make each method one step. The
-- time is an argument; `_maxPoolSize` is not kept, since nothing reads it.
pub mod Bounds
pub mod Fifo
use re_mo_lon.Common.{
  ℕ, zero, suc, not, ◌&&◌, ◌||◌, ◌+◌, ◌-◌, ◌%◌, ◌^◌, ◌≤◌, ◌<◌, ◌≡◌, refl, ◌⊎◌, inl, inr, List, [],
  ◌∷◌, ◌++◌, Option, none, some, Bool, true, false, ltb, leb, if◌then◌else◌, arith, length,
  length-append, Bool-cases, ltb→lt, leb→le,
}
use re_mo_lon.Common.Outcome.{ok, throws, fault, Run, task_queue_full}

pub record Worker : Type 0 where
  pub last_active_time : ℕ
  pub active : Bool
  pub terminated : Bool

pub record ThreadPool (T : Type 0) : Type 0 where
  pub pool : List Worker
  pub tasks : List T
  pub min_pool_size : ℕ
  pub current_pool_size : ℕ
  pub max_idle_time : ℕ
  pub max_queue_size : ℕ
  pub active : Bool

-- The loop of `purgeIdleThreads`, from the size of the pool: the workers and the size after it, or
-- none where it goes on with an iterator that `erase` has made invalid.
unfoldable pub purge_from : ℕ → ℕ → ℕ → ℕ → List Worker → Option (List Worker × ℕ)
purge_from now max_idle min_size size [] = some ([], size)
purge_from now max_idle min_size size (w ∷ workers) =
    let idle = purge_from now max_idle min_size (size - 1) workers in
    let busy = purge_from now max_idle min_size size workers in
    if ltb min_size size
    then (if w.terminated
        then none
        else (if ltb max_idle (now - w.last_active_time)
            then elim idle [
              | none ↦ none
              | some (rest, k) ↦ some (record w { active = false } ∷ rest, k)
            ]
            else elim busy [ none ↦ none | some (rest, k) ↦ some (w ∷ rest, k) ]))
    else some (w ∷ workers, size)

-- `wt_->_lastActiveTime = currentTimeMillis ( )` for the worker at a position.
abbrev pub touched : ℕ → ℕ → List Worker → List Worker
touched now i [] = []
touched now zero (w ∷ workers) = record w { last_active_time = now } ∷ workers
touched now (suc i) (w ∷ workers) = w ∷ touched now i workers

-- `wt_->_terminated = true` for the worker at a position, unless both flags let it go on.
abbrev pub checked : Bool → ℕ → List Worker → List Worker
checked on i [] = []
checked on zero (w ∷ workers) =
    record w { terminated = not (on && w.active) || w.terminated } ∷ workers
checked on (suc i) (w ∷ workers) = w ∷ checked on i workers

module _ {T : Type 0} where
  abbrev pub create_worker : ℕ → ThreadPool T → ThreadPool T
  create_worker now p = record p {
    pool = p.pool ++ (record { last_active_time = now; active = true; terminated = false } ∷ []);
    current_pool_size = (p.current_pool_size + 1) % 2 ^ 32;
  }

  unfoldable pub purge_idle_threads : ℕ → ThreadPool T → Option (ThreadPool T)
  purge_idle_threads now p =
      elim (purge_from now p.max_idle_time p.min_pool_size p.current_pool_size p.pool) [
        | none ↦ none
        | some (workers, size) ↦ some (record p { pool = workers; current_pool_size = size })
      ]

  abbrev pub push : T → ThreadPool T → ThreadPool T
  push task p = record p { tasks = p.tasks ++ (task ∷ []) }

  unfoldable pub execute_task : ℕ → T → Run (ThreadPool T) (Unit {0})
  execute_task now task p =
      let purged = purge_idle_threads now p in
      if leb p.max_queue_size (length p.tasks)
      then throws task_queue_full p
      else (if ltb p.current_pool_size (length p.tasks)
          then ok tt (push task (create_worker now p))
          else (if ltb p.min_pool_size p.current_pool_size
              then elim purged [ none ↦ fault | some p' ↦ ok tt (push task p') ]
              else ok tt (push task p)))

  -- What a worker that has waited takes from the queue.
  unfoldable pub next_task : ThreadPool T → Option T × ThreadPool T
  next_task p = elim p.tasks [
    | [] ↦ (none, p)
    | task ∷ later ↦ (some task, record p { tasks = later })
  ]

  -- The loop of `initializeThreadPool`, which makes as many workers as asked for.
  abbrev pub create_workers : ℕ → ℕ → ThreadPool T → ThreadPool T
  create_workers now zero p = p
  create_workers now (suc rounds) p = create_workers now rounds (create_worker now p)

  -- The constructor with its four arguments, of which the maximum of the pool's size is not kept.
  unfoldable pub new_thread_pool : ℕ → ℕ → ℕ → ℕ → ThreadPool T
  new_thread_pool now pool_size max_idle_time max_queue_size =
      create_workers now pool_size (record {
        pool = [];
        tasks = [];
        min_pool_size = pool_size;
        current_pool_size = 0;
        max_idle_time = max_idle_time;
        max_queue_size = max_queue_size;
        active = true;
      })

  -- The constructor without arguments.
  unfoldable pub default_thread_pool : ℕ → ThreadPool T
  default_thread_pool now = new_thread_pool now 8 60000 256

  -- The threads are detached, so none of them is joinable and none is waited for.
  abbrev pub shut_down : ThreadPool T → ThreadPool T
  shut_down p = record p { active = false; tasks = []; pool = [] }

  -- What the pool's own thread `i` does after it has waited: the task that it runs, if there is one,
  -- for which it notes the time.
  unfoldable pub worker_wakes : ℕ → ℕ → ThreadPool T → Option T × ThreadPool T
  worker_wakes now i p =
      let (task, p') = next_task p in
      elim task [
        | none ↦ (none, p')
        | some t ↦ (some t, record p' { pool = touched now i p'.pool })
      ]

  -- The test of the outer loop: a thread that does not go on has ended.
  unfoldable pub worker_checks : ℕ → ThreadPool T → ThreadPool T
  worker_checks i p = record p { pool = checked p.active i p.pool }
