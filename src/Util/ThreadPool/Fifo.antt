-- ===== src/Util/ThreadPool/Fifo.antt =====
-- The queue of a pool under any interleaving of the threads that submit tasks and of its own.
use re_mo_lon.Common.{
  ℕ, ◌≡◌, sym, ap, ◌∙◌, List, [], ◌∷◌, ◌++◌, none, some, append_assoc, append-nil, arith,
}
use re_mo_lon.Common.Outcome.{ok, throws, Error}
use re_mo_lon.Util.ThreadPool.{
  ThreadPool, purge_idle_threads, execute_task, next_task, worker_wakes, worker_checks,
}

-- From a pool to another, with the tasks that were accepted and those that a worker took, in order.
-- An unaccepted task is refused with an exception.
pub data Runs {T : Type 0} : ThreadPool T → List T → List T → ThreadPool T → Type 0 where
  idle : {p : ThreadPool T} → Runs p [] [] p
  accepts :
      {p q r : ThreadPool T} {ins outs : List T} (now : ℕ) (task : T)
      → execute_task now task p ≡ ok tt q
      → Runs q ins outs r
      → Runs p (task ∷ ins) outs r
  refuses :
      {p q r : ThreadPool T} {ins outs : List T} (now : ℕ) (task : T) (e : Error)
      → execute_task now task p ≡ throws e q
      → Runs q ins outs r
      → Runs p ins outs r
  takes :
      {p q r : ThreadPool T} {ins outs : List T} (now i : ℕ) (task : T)
      → worker_wakes now i p ≡ (some task, q)
      → Runs q ins outs r
      → Runs p ins (task ∷ outs) r
  waits :
      {p q r : ThreadPool T} {ins outs : List T} (now i : ℕ)
      → worker_wakes now i p ≡ (none, q)
      → Runs q ins outs r
      → Runs p ins outs r
  checks :
      {p r : ThreadPool T} {ins outs : List T} (i : ℕ)
      → Runs (worker_checks i p) ins outs r
      → Runs p ins outs r

execute_task-ok :
    {T : Type 0} (now : ℕ) (task : T) (p q : ThreadPool T)
    → execute_task now task p ≡ ok tt q
    → q.tasks ≡ p.tasks ++ (task ∷ [])
unfolding execute_task purge_idle_threads
execute_task-ok now task p q e = ground (arith, e)

execute_task-throws :
    {T : Type 0} (now : ℕ) (task : T) (p q : ThreadPool T) (x : Error)
    → execute_task now task p ≡ throws x q
    → q.tasks ≡ p.tasks
unfolding execute_task purge_idle_threads
execute_task-throws now task p q x e = ground (arith, e)

worker_wakes-some :
    {T : Type 0} (now i : ℕ) (task : T) (p q : ThreadPool T)
    → worker_wakes now i p ≡ (some task, q)
    → p.tasks ≡ task ∷ q.tasks
unfolding worker_wakes next_task
worker_wakes-some now i task p q e = ground (arith, e)

worker_wakes-none :
    {T : Type 0} (now i : ℕ) (p q : ThreadPool T)
    → worker_wakes now i p ≡ (none, q)
    → (p.tasks ≡ []) × (q.tasks ≡ [])
unfolding worker_wakes next_task
worker_wakes-none now i p q e = ground (arith, e)

-- However the calls of `executeTask` and the steps of the workers interleave, the tasks that the
-- workers have taken, followed by those that still wait, are those that waited at first, followed
-- by the accepted ones in their order: no task is lost, taken twice or overtaken.
pub Runs-fifo :
    {T : Type 0} {p r : ThreadPool T} {ins outs : List T}
    → Runs p ins outs r
    → outs ++ r.tasks ≡ p.tasks ++ ins
unfolding worker_checks
Runs-fifo {p = p} idle = sym (append-nil p.tasks)
Runs-fifo (accepts {p} {q} {r} {ins} {outs} now task e runs) =
    Runs-fifo runs
    ∙ ap (λ t. t ++ ins) (execute_task-ok now task p q e)
    ∙ append_assoc p.tasks (task ∷ []) ins
Runs-fifo (refuses {p} {q} {r} {ins} {outs} now task x e runs) =
    Runs-fifo runs ∙ ap (λ t. t ++ ins) (execute_task-throws now task p q x e)
Runs-fifo (takes {p} {q} {r} {ins} {outs} now i task e runs) =
    ap (λ t. task ∷ t) (Runs-fifo runs)
    ∙ ap (λ t. t ++ ins) (sym (worker_wakes-some now i task p q e))
Runs-fifo (waits {p} {q} {r} {ins} {outs} now i e runs) =
    let (before, later) = worker_wakes-none now i p q e in
    Runs-fifo runs ∙ ap (λ t. t ++ ins) (later ∙ sym before)
Runs-fifo (checks i runs) = Runs-fifo runs
