-- ===== src/Engines/Examples.antt =====
-- A pool of two engines with three tasks: one hangs and is timed out, one finds its engine dead, one is cancelled
-- by its caller while it waits.
use chess_blunder_trainer.Common.{
  ◌≡◌, refl, true, false, none, some, List, [], ◌∷◌, nat_eq, discard,
}
use chess_blunder_trainer.Common.Dict
use chess_blunder_trainer.Engines.Pool.{
  was_cancelled, result_set, exception_set, returned, timed_out, EngineRun, EnginePool, started,
  pool_steps, pool_step, submit_task, put_item, take_item, end_task, dispatch_engine_task,
  ensure_alive, end_attempt, settle_unless_done, settle_unless_cancelled, state_of, PoolEvent,
  submitted, future_cancelled, took, ended, idle,
}
use chess_blunder_trainer.Engines.Pool.Account.{is_open}
use chess_blunder_trainer.Engines.Pool.Drained.{drained_is_done}

abbrev hangs : EngineRun
hangs = record { is_alive = true; spawned = none; attempt = timed_out (some 12) }

abbrev finds_it_dead : EngineRun
finds_it_dead = record { is_alive = false; spawned = some 13; attempt = returned 35 }

abbrev answers : EngineRun
answers = record { is_alive = true; spawned = none; attempt = returned 7 }

abbrev events : List PoolEvent
events =
    submitted
    ∷ submitted
    ∷ submitted
    ∷ took 0
    ∷ took 1
    ∷ future_cancelled 2
    ∷ ended 1 finds_it_dead
    ∷ ended 0 hangs
    ∷ took 1
    ∷ ended 1 answers
    ∷ []

abbrev drained : EnginePool
drained = record {
  queue = [];
  unfinished = 0;
  engines = 13 ∷ 12 ∷ [];
  workers = idle 12 ∷ idle 13 ∷ [];
  shutting_down = false;
  futures = (0, exception_set "TimeoutError") ∷ (1, result_set 35) ∷ (2, was_cancelled) ∷ [];
  next = 3;
}

events_drain : pool_steps events (started (10 ∷ 11 ∷ [])) ≡ some drained
unfolding pool_step started submit_task put_item take_item end_task dispatch_engine_task
    ensure_alive end_attempt settle_unless_done settle_unless_cancelled state_of Dict.get Dict.put
    discard
events_drain = refl

drained_is_done_example : is_open drained.futures 2 ≡ false
drained_is_done_example =
    drained_is_done (10 ∷ 11 ∷ []) events drained
      (refl, (refl, (refl, (refl, (refl, (refl, (refl, (refl, (refl, (refl, tt))))))))))
      events_drain refl 2
