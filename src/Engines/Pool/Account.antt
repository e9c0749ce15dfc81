-- ===== src/Engines/Pool/Account.antt =====
-- Where the open futures of an EnginePool are, and what its queue counts.
use chess_blunder_trainer.Common.{
  ℕ, zero, suc, ◌+◌, ◌-◌, ◌≡◌, ◌⊎◌, inl, inr, refl, ap, ◌∙◌, subst, if_both, Bool, true, false,
  Option, none, some, List, [], ◌∷◌, ◌++◌, if◌then◌else◌, ◌||◌, ◌==◌, nat_eq, arith, Bool-cases,
}
use chess_blunder_trainer.Common.Dict
use chess_blunder_trainer.Common.Dict.{Dict, get-put}
use chess_blunder_trainer.Common.Search.{none-some, some-injective}
use chess_blunder_trainer.Engines.Pool.{
  FutureState, pending, was_cancelled, result_set, exception_set, Item, sentinel, task, Worker,
  idle, busy, Attempt, returned, timed_out, raised, cancelled, EngineRun, EnginePool, state_of,
  settle_in, settle_open, settle_unless_cancelled, settle_unless_done, ensure_alive, replaced,
  end_attempt, after_ensure, dispatch_engine_task, worker_at, set_worker,
}

abbrev pub is_pending : Option FutureState → Bool
is_pending none = false
is_pending (some pending) = true
is_pending (some s) = false

-- the future is there and not done
abbrev pub is_open : Dict ℕ FutureState → ℕ → Bool
is_open futures t = is_pending (Dict.get futures t)

abbrev pub has_task : Item → ℕ → Bool
has_task sentinel t = false
has_task (task u) t = u == t

abbrev pub queued : List Item → ℕ → Bool
queued [] t = false
queued (i ∷ is) t = has_task i t || queued is t

abbrev pub holds : Worker → ℕ → Bool
holds (busy e u late) t = u == t
holds w t = false

abbrev pub in_hand : List Worker → ℕ → Bool
in_hand [] t = false
in_hand (w ∷ ws) t = holds w t || in_hand ws t

abbrev pub busy_one : Worker → ℕ
busy_one (busy e u late) = 1
busy_one w = 0

abbrev pub busy_count : List Worker → ℕ
busy_count [] = 0
busy_count (w ∷ ws) = busy_one w + busy_count ws

pub queued-append : (is js : List Item) (t : ℕ) → queued (is ++ js) t ≡ queued is t || queued js t
queued-append [] js t = refl
queued-append (i ∷ is) js t = ground (arith, queued-append is js t)

pub busy_count-set_worker :
    (n : ℕ) (v w : Worker) (ws : List Worker)
    → worker_at n ws ≡ some w
    → busy_count (set_worker n v ws) + busy_one w ≡ busy_count ws + busy_one v
busy_count-set_worker n v w [] h = absurd (none-some h)
busy_count-set_worker zero v w (x ∷ ws) h = omega (arith, ap busy_one (some-injective h))
busy_count-set_worker (suc n) v w (x ∷ ws) h = omega (arith, busy_count-set_worker n v w ws h)

pub in_hand-set_worker :
    (n : ℕ) (v w : Worker) (ws : List Worker) (t : ℕ)
    → worker_at n ws ≡ some w
    → in_hand ws t ≡ true
    → (holds w t ≡ true) ⊎ (in_hand (set_worker n v ws) t ≡ true)
in_hand-set_worker n v w [] t h k = absurd (none-some h)
in_hand-set_worker zero v w (x ∷ ws) t h k = elim (Bool-cases (holds x t)) [
  | inl here ↦ inl (ground (arith, here, ap (λ (y : Worker). holds y t) (some-injective h)))
  | inr other ↦ inr (ground (arith, other, k))
]
in_hand-set_worker (suc n) v w (x ∷ ws) t h k = elim (Bool-cases (holds x t)) [
  | inl here ↦ inr (ground (arith, here))
  | inr other ↦ elim (in_hand-set_worker n v w ws t h (ground (arith, other, k))) [
    | inl held ↦ inl held
    | inr kept ↦ inr (ground (arith, kept))
  ]
]

pub new-in_hand :
    (n : ℕ) (v w : Worker) (ws : List Worker) (t : ℕ)
    → worker_at n ws ≡ some w
    → holds v t ≡ true
    → in_hand (set_worker n v ws) t ≡ true
new-in_hand n v w [] t h k = absurd (none-some h)
new-in_hand zero v w (x ∷ ws) t h k = ground (arith, k)
new-in_hand (suc n) v w (x ∷ ws) t h k = ground (arith, new-in_hand n v w ws t h k)

-- what is open after a change is open before it, and is not the future that was settled
abbrev pub Closes : ℕ → Dict ℕ FutureState → Dict ℕ FutureState → Type 0
Closes t before after =
    (u : ℕ) → is_open after u ≡ true → ((t == u) ≡ false) × (is_open before u ≡ true)

Closes-put :
    (t : ℕ) (s : FutureState) (futures : Dict ℕ FutureState)
    → is_pending (some s) ≡ false
    → Closes t futures (Dict.put futures t s)
Closes-put t s futures done u h = elim (Bool-cases (t == u)) [
  | inl same ↦ ground (arith, same, ap is_pending (get-put futures t u s), h, done)
  | inr other ↦ (other, ground (arith, other, ap is_pending (get-put futures t u s), h))
]

-- whether a future is done, by its state
is_done_state : FutureState → Bool
is_done_state pending = false
is_done_state s = true

closed :
    (o : Option FutureState)
    → is_done_state (elim o [ none ↦ pending | some s ↦ s ]) ≡ true
    → is_pending o ≡ false
unfolding is_done_state
closed none h = refl
closed (some pending) h = ground (arith, h)
closed (some was_cancelled) h = refl
closed (some (result_set r)) h = refl
closed (some (exception_set m)) h = refl

closed-state_of :
    (futures : Dict ℕ FutureState) (t : ℕ)
    → is_done_state (state_of futures t) ≡ true
    → is_open futures t ≡ false
unfolding state_of
closed-state_of futures t h = closed (Dict.get futures t) h

Closes-done :
    (t : ℕ) (futures : Dict ℕ FutureState)
    → is_done_state (state_of futures t) ≡ true
    → Closes t futures futures
Closes-done t futures done u h = elim (Bool-cases (t == u)) [
  | inl same ↦
      let shut : is_open futures u ≡ false =
        subst (λ v. is_open futures v ≡ false) ((nat_eq.beq_iff t u).0 same)
          (closed-state_of futures t done) in
      ground (arith, shut, h)
  | inr other ↦ (other, h)
]

Closes-settle_in :
    (old s : FutureState) (t : ℕ) (futures : Dict ℕ FutureState)
    → is_done_state (state_of futures t) ≡ is_done_state old
    → is_pending (some s) ≡ false
    → Closes t futures (settle_in old s t futures)
unfolding is_done_state
Closes-settle_in was_cancelled s t futures e done = Closes-done t futures e
Closes-settle_in pending s t futures e done = Closes-put t s futures done
Closes-settle_in (result_set r) s t futures e done = Closes-put t s futures done
Closes-settle_in (exception_set m) s t futures e done = Closes-put t s futures done

Closes-settle_open :
    (old s : FutureState) (t : ℕ) (futures : Dict ℕ FutureState)
    → is_done_state (state_of futures t) ≡ is_done_state old
    → is_pending (some s) ≡ false
    → Closes t futures (settle_open old s t futures)
unfolding is_done_state
Closes-settle_open was_cancelled s t futures e done = Closes-done t futures e
Closes-settle_open pending s t futures e done = Closes-put t s futures done
Closes-settle_open (result_set r) s t futures e done = Closes-done t futures e
Closes-settle_open (exception_set m) s t futures e done = Closes-done t futures e

Closes-unless_cancelled :
    (t : ℕ) (s : FutureState) (futures : Dict ℕ FutureState)
    → is_pending (some s) ≡ false
    → Closes t futures (settle_unless_cancelled t s futures)
unfolding settle_unless_cancelled
Closes-unless_cancelled t s futures done =
    Closes-settle_in (state_of futures t) s t futures refl done

pub Closes-unless_done :
    (t : ℕ) (s : FutureState) (futures : Dict ℕ FutureState)
    → is_pending (some s) ≡ false
    → Closes t futures (settle_unless_done t s futures)
unfolding settle_unless_done
Closes-unless_done t s futures done = Closes-settle_open (state_of futures t) s t futures refl done

-- the attempt that kills its worker: the engine hung, and no other could be spawned
abbrev pub is_lost : Attempt → Bool
is_lost (timed_out none) = true
is_lost a = false

-- A worker that ends a task holds none, has counted it, and leaves its future done; the rest of the pool is as before.
abbrev pub Ends : ℕ → EnginePool → Worker × EnginePool → Type 0
Ends t p (w, q) =
    (q.queue ≡ p.queue)
    × (q.workers ≡ p.workers)
    × (q.unfinished ≡ p.unfinished - 1)
    × (q.next ≡ p.next)
    × (q.shutting_down ≡ p.shutting_down)
    × (busy_one w ≡ 0)
    × Closes t p.futures q.futures

Ends-end_attempt :
    (a : Attempt) (engine t : ℕ) (p : EnginePool)
    → is_lost a ≡ false
    → Ends t p (end_attempt a engine t p)
unfolding end_attempt
Ends-end_attempt (returned r) engine t p kept =
    (refl, refl, refl, refl, refl, refl, Closes-unless_cancelled t (result_set r) p.futures refl)
Ends-end_attempt (timed_out none) engine t p kept = ground (arith, kept)
Ends-end_attempt (timed_out (some new)) engine t p kept = (
  refl,
  refl,
  refl,
  refl,
  refl,
  refl,
  Closes-unless_done t (exception_set "TimeoutError") p.futures refl,
)
Ends-end_attempt (raised m) engine t p kept =
    (refl, refl, refl, refl, refl, refl, Closes-unless_cancelled t (exception_set m) p.futures refl)
Ends-end_attempt cancelled engine t p kept =
    (refl, refl, refl, refl, refl, refl, Closes-unless_done t was_cancelled p.futures refl)

-- `_ensure_alive` changes the list of engines at most
abbrev KeepsTasks : EnginePool → Option ℕ × EnginePool → Type 0
KeepsTasks p (o, q) =
    (q.queue ≡ p.queue)
    × (q.workers ≡ p.workers)
    × (q.unfinished ≡ p.unfinished)
    × (q.next ≡ p.next)
    × (q.shutting_down ≡ p.shutting_down)
    × (q.futures ≡ p.futures)

replaced-KeepsTasks :
    (o : Option ℕ) (engine : ℕ) (p : EnginePool) → KeepsTasks p (replaced o engine p)
replaced-KeepsTasks none engine p = (refl, refl, refl, refl, refl, refl)
replaced-KeepsTasks (some new) engine p = (refl, refl, refl, refl, refl, refl)

ensure_alive-KeepsTasks :
    (run : EngineRun) (late : Bool) (engine : ℕ) (p : EnginePool)
    → KeepsTasks p (ensure_alive run late engine p)
unfolding ensure_alive
ensure_alive-KeepsTasks run late engine p =
    if_both (KeepsTasks p) run.is_alive (some engine, p)
      (if late then (none, p) else replaced run.spawned engine p)
      (refl, refl, refl, refl, refl, refl)
      (if_both (KeepsTasks p) late (none, p) (replaced run.spawned engine p)
        (refl, refl, refl, refl, refl, refl) (replaced-KeepsTasks run.spawned engine p))

Ends-KeepsTasks :
    (t : ℕ) (p q r : EnginePool) (o : Option ℕ) (w : Worker)
    → KeepsTasks p (o, q)
    → Ends t q (w, r)
    → Ends t p (w, r)
Ends-KeepsTasks t p q r o w h e = (
  e.0 ∙ h.0,
  e.1 ∙ h.1,
  e.2 ∙ ap (λ (n : ℕ). n - 1) h.2,
  e.3 ∙ h.3,
  e.4 ∙ h.4,
  e.5,
  subst (λ (f : Dict ℕ FutureState). Closes t f r.futures) h.5 e.6,
)

Ends-after_ensure :
    (a : Attempt) (engine t : ℕ) (p : EnginePool) (r : Option ℕ × EnginePool)
    → is_lost a ≡ false
    → KeepsTasks p r
    → Ends t p (after_ensure a engine t r)
Ends-after_ensure a engine t p (none, q) kept h =
    Ends-KeepsTasks t p q (after_ensure a engine t (none, q)).1 none (idle engine) h (
      refl,
      refl,
      refl,
      refl,
      refl,
      refl,
      Closes-unless_cancelled t (exception_set "EngineTerminatedError") q.futures refl,
    )
Ends-after_ensure a engine t p (some alive, q) kept h =
    let (w, r) = end_attempt a alive t q in
    Ends-KeepsTasks t p q r (some alive) w h (Ends-end_attempt a alive t q kept)

-- A task that is dispatched is counted and its future is done, whatever the engine does, unless a hung engine could not be
-- replaced.
pub Ends-dispatch :
    (run : EngineRun) (late : Bool) (engine t : ℕ) (p : EnginePool)
    → is_lost run.attempt ≡ false
    → Ends t p (dispatch_engine_task run late engine t p)
unfolding dispatch_engine_task
Ends-dispatch run late engine t p kept =
    Ends-after_ensure run.attempt engine t p (ensure_alive run late engine p) kept
      (ensure_alive-KeepsTasks run late engine p)
