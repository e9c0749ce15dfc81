-- ===== src/Engines/Pool.antt =====
-- EnginePool of blunder_tutor/analysis/engine_pool.py, and WorkCoordinator, which passes its calls on. Engines and
-- futures are numbers. What an engine process and a submitted function do is an argument of the step in which
-- a worker ends its task: the worker resolves the future without a wait after it. Metrics are left out.
pub mod Account
pub mod Placed
pub mod Drained
use chess_blunder_trainer.Common.{
  ℕ, zero, suc, ◌+◌, ◌-◌, String, Bool, true, false, Option, none, some, List, [], ◌∷◌, ◌++◌,
  if◌then◌else◌, nat_eq, discard, length, not, ◌&&◌,
}
use chess_blunder_trainer.Common.Dict
use chess_blunder_trainer.Common.Search.{and_then}
use chess_blunder_trainer.Common.Dict.{Dict}

pub data FutureState : Type 0 where
  pending was_cancelled : FutureState
  result_set : ℕ → FutureState
  exception_set : String → FutureState

pub data Item : Type 0 where
  sentinel : Item
  task : ℕ → Item

-- a `_worker` that waits for an item, one that handles a task, with `_shutting_down` as `_ensure_alive` reads it
-- when the task begins, and one that has ended
pub data Worker : Type 0 where
  idle : ℕ → Worker
  busy : ℕ → ℕ → Bool → Worker
  stopped : Worker

-- what awaiting the submitted function, under the timeout, does; after a timeout the engine is killed and
-- `_spawn_engine` gives another one, or raises
pub data Attempt : Type 0 where
  returned : ℕ → Attempt
  timed_out : Option ℕ → Attempt
  raised : String → Attempt
  cancelled : Attempt

-- `_is_alive(engine)`, what `_spawn_engine` would give in `_ensure_alive`, and the attempt that follows
pub record EngineRun : Type 0 where
  pub is_alive : Bool
  pub spawned : Option ℕ
  pub attempt : Attempt

pub record EnginePool : Type 0 where
  pub queue : List Item
  -- what `queue.join()` waits for to be 0
  pub unfinished : ℕ
  pub engines : List ℕ
  pub workers : List Worker
  pub shutting_down : Bool
  pub futures : Dict ℕ FutureState
  -- the next future that `create_future` makes
  pub next : ℕ

abbrev workers_of : List ℕ → List Worker
workers_of [] = []
workers_of (e ∷ es) = idle e ∷ workers_of es

-- `start`, once it has spawned the engines
unfoldable pub started : List ℕ → EnginePool
started engines = record {
  queue = [];
  unfinished = 0;
  engines = engines;
  workers = workers_of engines;
  shutting_down = false;
  futures = [];
  next = 0;
}

unfoldable pub put_item : Item → EnginePool → EnginePool
put_item item p = record p { queue = p.queue ++ item ∷ []; unfinished = p.unfinished + 1 }

unfoldable pub submit_task : EnginePool → EnginePool
unfolding put_item
submit_task p =
    put_item (task p.next)
      (record p { futures = Dict.put p.futures p.next pending; next = p.next + 1 })

abbrev pub sentinels : List Worker → List Item
sentinels [] = []
sentinels (w ∷ ws) = sentinel ∷ sentinels ws

-- `shutdown`, up to its wait for the workers
unfoldable pub begin_shutdown : EnginePool → EnginePool
begin_shutdown p = record p {
  shutting_down = true;
  queue = p.queue ++ sentinels p.workers;
  unfinished = p.unfinished + length p.workers;
}

abbrev pub is_stopped : Worker → Bool
is_stopped stopped = true
is_stopped w = false

abbrev pub all_stopped : List Worker → Bool
all_stopped [] = true
all_stopped (w ∷ ws) = is_stopped w && all_stopped ws

-- `shutdown` after that wait
unfoldable pub finish_shutdown : EnginePool → Option EnginePool
finish_shutdown p =
    if all_stopped p.workers then some (record p { workers = []; engines = [] }) else none

unfoldable pub state_of : Dict ℕ FutureState → ℕ → FutureState
state_of futures t = elim (Dict.get futures t) [ none ↦ pending | some s ↦ s ]

abbrev settle_in : FutureState → FutureState → ℕ → Dict ℕ FutureState → Dict ℕ FutureState
settle_in was_cancelled s t futures = futures
settle_in old s t futures = Dict.put futures t s

-- `if not future.cancelled(): future.set_…`
unfoldable pub settle_unless_cancelled : ℕ → FutureState → Dict ℕ FutureState → Dict ℕ FutureState
settle_unless_cancelled t s futures = settle_in (state_of futures t) s t futures

abbrev settle_open : FutureState → FutureState → ℕ → Dict ℕ FutureState → Dict ℕ FutureState
settle_open pending s t futures = Dict.put futures t s
settle_open old s t futures = futures

-- `if not future.done(): future.…`, and `future.cancel()`
unfoldable pub settle_unless_done : ℕ → FutureState → Dict ℕ FutureState → Dict ℕ FutureState
settle_unless_done t s futures = settle_open (state_of futures t) s t futures

-- a dead engine leaves the list, and `_spawn_engine` adds another one, or raises
abbrev pub replaced : Option ℕ → ℕ → EnginePool → Option ℕ × EnginePool
replaced none engine p = (none, record p { engines = discard engine p.engines })
replaced (some new) engine p =
    (some new, record p { engines = discard engine p.engines ++ new ∷ [] })

-- `_ensure_alive`: the engine to use, or none when it raises
unfoldable pub ensure_alive : EngineRun → Bool → ℕ → EnginePool → Option ℕ × EnginePool
ensure_alive run shutting_down engine p =
    if run.is_alive
    then (some engine, p)
    else if shutting_down
    then (none, p)
    else replaced run.spawned engine p

abbrev task_done : EnginePool → EnginePool
task_done p = record p { unfinished = p.unfinished - 1 }

abbrev settled : (Dict ℕ FutureState → Dict ℕ FutureState) → EnginePool → EnginePool
settled f p = record p { futures = f p.futures }

-- `_dispatch_engine_task` once an engine is alive: what the worker is then, with `stopped` also when the
-- exception of a failed respawn leaves it
unfoldable pub end_attempt : Attempt → ℕ → ℕ → EnginePool → Worker × EnginePool
end_attempt (returned r) engine t p =
    (idle engine, task_done (settled (settle_unless_cancelled t (result_set r)) p))
end_attempt (timed_out (some new)) engine t p = (
  idle new,
  task_done (
      settled (settle_unless_done t (exception_set "TimeoutError"))
        (record p { engines = discard engine p.engines ++ new ∷ [] })),
)
end_attempt (timed_out none) engine t p =
    (stopped, task_done (record p { engines = discard engine p.engines }))
end_attempt (raised message) engine t p =
    (idle engine, task_done (settled (settle_unless_cancelled t (exception_set message)) p))
end_attempt cancelled engine t p =
    (stopped, task_done (settled (settle_unless_done t was_cancelled) p))

-- the same after `_ensure_alive`, whose exception is handled like one of the function; both of its causes set an
-- exception, here of one name
abbrev pub after_ensure : Attempt → ℕ → ℕ → Option ℕ × EnginePool → Worker × EnginePool
after_ensure attempt engine t (none, p) = (
  idle engine,
  task_done (settled (settle_unless_cancelled t (exception_set "EngineTerminatedError")) p),
)
after_ensure attempt engine t (some alive, p) = end_attempt attempt alive t p

-- `_dispatch_engine_task`
unfoldable pub dispatch_engine_task : EngineRun → Bool → ℕ → ℕ → EnginePool → Worker × EnginePool
dispatch_engine_task run shutting_down engine t p =
    after_ensure run.attempt engine t (ensure_alive run shutting_down engine p)

abbrev pub worker_at : ℕ → List Worker → Option Worker
worker_at n [] = none
worker_at zero (w ∷ ws) = some w
worker_at (suc n) (w ∷ ws) = worker_at n ws

abbrev pub set_worker : ℕ → Worker → List Worker → List Worker
set_worker n v [] = []
set_worker zero v (w ∷ ws) = v ∷ ws
set_worker (suc n) v (w ∷ ws) = w ∷ set_worker n v ws

pub data PoolEvent : Type 0 where
  -- a caller submits a function, cancels its future, or calls `shutdown`
  submitted : PoolEvent
  future_cancelled : ℕ → PoolEvent
  shutdown_called : PoolEvent
  -- a worker gets the next item, ends its task, or is cancelled while it waits
  took : ℕ → PoolEvent
  ended : ℕ → EngineRun → PoolEvent
  worker_cancelled : ℕ → PoolEvent

-- one round of `_worker`: the item that the queue gives
unfoldable pub take_item : ℕ → ℕ → List Item → EnginePool → Option EnginePool
take_item n engine [] p = none
take_item n engine (sentinel ∷ rest) p =
    some (task_done (record p { queue = rest; workers = set_worker n stopped p.workers }))
take_item n engine (task t ∷ rest) p =
    some
      (record p { queue = rest; workers = set_worker n (busy engine t p.shutting_down) p.workers })

unfoldable pub end_task : ℕ → Worker × EnginePool → EnginePool
end_task n (w, p) = record p { workers = set_worker n w p.workers }

abbrev pub worker_takes : ℕ → Option Worker → EnginePool → Option EnginePool
worker_takes n (some (idle engine)) p = take_item n engine p.queue p
worker_takes n w p = none

abbrev pub worker_ends : ℕ → EngineRun → Option Worker → EnginePool → Option EnginePool
worker_ends n run (some (busy engine t shutting_down)) p =
    some (end_task n (dispatch_engine_task run shutting_down engine t p))
worker_ends n run w p = none

abbrev pub worker_leaves : ℕ → Option Worker → EnginePool → Option EnginePool
worker_leaves n (some (idle engine)) p =
    some (record p { workers = set_worker n stopped p.workers })
worker_leaves n w p = none

-- what an event does; none when it cannot happen
unfoldable pub pool_step : PoolEvent → EnginePool → Option EnginePool
pool_step submitted p = some (submit_task p)
pool_step (future_cancelled t) p =
    some (record p { futures = settle_unless_done t was_cancelled p.futures })
pool_step shutdown_called p = some (begin_shutdown p)
pool_step (took n) p = worker_takes n (worker_at n p.workers) p
pool_step (ended n run) p = worker_ends n run (worker_at n p.workers) p
pool_step (worker_cancelled n) p = worker_leaves n (worker_at n p.workers) p

abbrev pub pool_steps : List PoolEvent → EnginePool → Option EnginePool
pool_steps [] p = some p
pool_steps (e ∷ es) p = and_then (pool_step e p) (pool_steps es)
