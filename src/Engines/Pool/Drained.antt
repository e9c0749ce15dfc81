-- ===== src/Engines/Pool/Drained.antt =====
-- What `drain` of an EnginePool waits for, in runs of the pool.
use chess_blunder_trainer.Common.{
  ℕ, ◌≡◌, inl, inr, refl, subst, Bool, false, some, List, [], ◌∷◌, nat_eq, arith, length,
  Bool-cases,
}
use chess_blunder_trainer.Common.Dict
use chess_blunder_trainer.Common.Dict.{Dict, get-put}
use chess_blunder_trainer.Common.Search.{and_then-elim, some-injective}
use chess_blunder_trainer.Engines.Pool.{
  was_cancelled, Item, Worker, idle, busy, stopped, EnginePool, started, workers_of, worker_at,
  PoolEvent, submitted, future_cancelled, shutdown_called, took, ended, worker_cancelled, pool_step,
  pool_steps,
}
use chess_blunder_trainer.Engines.Pool.Account.{
  is_open, queued, in_hand, busy_count, Closes-unless_done, is_lost,
}
use chess_blunder_trainer.Engines.Pool.Placed.{
  Accounted, submit_task-Accounted, begin_shutdown-Accounted, worker_takes-Accounted,
  worker_ends-Accounted, worker_leaves-Accounted,
}

-- no event of the list is a timeout after which no engine could be spawned
abbrev loses : PoolEvent → Bool
loses (ended n run) = is_lost run.attempt
loses e = false

abbrev pub NoneLost : List PoolEvent → Type 0
NoneLost [] = Unit
NoneLost (e ∷ es) = (loses e ≡ false) × NoneLost es

pool_step-Accounted :
    (e : PoolEvent) (p q : EnginePool)
    → loses e ≡ false
    → pool_step e p ≡ some q
    → Accounted p
    → Accounted q
unfolding pool_step
pool_step-Accounted submitted p q kept h a =
    subst Accounted (some-injective h) (submit_task-Accounted p a)
pool_step-Accounted (future_cancelled t) p q kept h a =
    subst Accounted (some-injective h)
      (a.0, λ u open_now. a.1 u (Closes-unless_done t was_cancelled p.futures refl u open_now).1)
pool_step-Accounted shutdown_called p q kept h a =
    subst Accounted (some-injective h) (begin_shutdown-Accounted p a)
pool_step-Accounted (took n) p q kept h a =
    worker_takes-Accounted n (worker_at n p.workers) p q refl h a
pool_step-Accounted (ended n run) p q kept h a =
    worker_ends-Accounted n run (worker_at n p.workers) p q kept refl h a
pool_step-Accounted (worker_cancelled n) p q kept h a =
    worker_leaves-Accounted n (worker_at n p.workers) p q refl h a

pool_steps-Accounted :
    (es : List PoolEvent) (p q : EnginePool)
    → NoneLost es
    → pool_steps es p ≡ some q
    → Accounted p
    → Accounted q
pool_steps-Accounted [] p q kept h a = subst Accounted (some-injective h) a
pool_steps-Accounted (e ∷ es) p q kept h a =
    and_then-elim (pool_step e p) (pool_steps es) q h (λ r first rest.
      pool_steps-Accounted es r q kept.1 rest (pool_step-Accounted e p r kept.0 first a))

busy_count-workers_of : (engines : List ℕ) → busy_count (workers_of engines) ≡ 0
busy_count-workers_of [] = refl
busy_count-workers_of (e ∷ es) = omega (arith, busy_count-workers_of es)

started-Accounted : (engines : List ℕ) → Accounted (started engines)
unfolding started Dict.get
started-Accounted engines =
    (omega (arith, busy_count-workers_of engines), λ t open_now. ground (arith, open_now))

none_queued : (is : List Item) (t : ℕ) → length is ≡ 0 → queued is t ≡ false
none_queued [] t h = refl
none_queued (i ∷ is) t h = ground (arith, h)

none_in_hand : (ws : List Worker) (t : ℕ) → busy_count ws ≡ 0 → in_hand ws t ≡ false
none_in_hand [] t h = refl
none_in_hand (idle e ∷ ws) t h = none_in_hand ws t (omega (arith, h))
none_in_hand (busy e u late ∷ ws) t h = ground (arith, h)
none_in_hand (stopped ∷ ws) t h = none_in_hand ws t (omega (arith, h))

-- When the queue of a pool counts no unfinished item, which is what `drain` waits for, every future that was ever
-- submitted is done: it has a result, an exception, or was cancelled. This holds in every order of submissions,
-- cancellations, dead engines and timeouts, unless a hung engine could not be replaced.
pub drained_is_done :
    (engines : List ℕ) (es : List PoolEvent) (p : EnginePool)
    → NoneLost es
    → pool_steps es (started engines) ≡ some p
    → p.unfinished ≡ 0
    → (t : ℕ) → is_open p.futures t ≡ false
drained_is_done engines es p kept run empty t =
    let (counted, placed) =
      pool_steps-Accounted es (started engines) p kept run (started-Accounted engines) in
    elim (Bool-cases (is_open p.futures t)) [
      | inl open_now ↦ elim (placed t open_now) [
        | inl waits ↦ ground (arith, waits, none_queued p.queue t (omega (arith, counted, empty)))
        | inr held ↦ ground (arith, held, none_in_hand p.workers t (omega (arith, counted, empty)))
      ]
      | inr done ↦ done
    ]
