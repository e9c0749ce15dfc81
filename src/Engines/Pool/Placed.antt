-- ===== src/Engines/Pool/Placed.antt =====
-- Each event of an EnginePool keeps its account: what is open is in the queue or in a worker's hands.
use chess_blunder_trainer.Common.{
  Bool, ℕ, ◌+◌, ◌≡◌, ◌⊎◌, inl, inr, refl, ap, ◌∙◌, subst, true, false, Option, none, some, List, [],
  ◌∷◌, ◌==◌, nat_eq, arith, length, length-append, Bool-cases,
}
use chess_blunder_trainer.Common.Dict.{Dict, get-put}
use chess_blunder_trainer.Common.Search.{none-some, some-injective}
use chess_blunder_trainer.Engines.Pool.{
  FutureState, pending, Item, sentinel, task, Worker, idle, busy, stopped, EngineRun, EnginePool,
  submit_task, put_item, begin_shutdown, sentinels, dispatch_engine_task, worker_at, set_worker,
  take_item, end_task, worker_takes, worker_ends, worker_leaves,
}
use chess_blunder_trainer.Engines.Pool.Account.{
  is_pending, is_open, queued, holds, in_hand, busy_count, queued-append, busy_count-set_worker,
  in_hand-set_worker, new-in_hand, is_lost, Ends, Ends-dispatch,
}

-- the queue counts its items and the tasks in hand, and an open future is in one of the two
abbrev pub Accounts : ℕ → List Item → List Worker → Dict ℕ FutureState → Type 0
Accounts unfinished queue workers futures =
    (unfinished ≡ length queue + busy_count workers)
    × ((t : ℕ) → is_open futures t ≡ true → (queued queue t ≡ true) ⊎ (in_hand workers t ≡ true))

abbrev pub Accounted : EnginePool → Type 0
Accounted p = Accounts p.unfinished p.queue p.workers p.futures

pub submit_task-Accounted : (p : EnginePool) → Accounted p → Accounted (submit_task p)
unfolding submit_task put_item
submit_task-Accounted p h = (
  omega (arith, h.0, length-append p.queue (task p.next ∷ [])),
  λ t open_now. elim (Bool-cases (p.next == t)) [
    | inl new ↦ inl (ground (arith, new, queued-append p.queue (task p.next ∷ []) t))
    | inr old ↦
        elim (h.1 t
          (ground (arith, old, open_now, ap is_pending (get-put p.futures p.next t pending)))) [
            | inl waits ↦ inl (ground (arith, waits, queued-append p.queue (task p.next ∷ []) t))
            | inr held ↦ inr held
          ]
  ],
)

length-sentinels : (ws : List Worker) → length (sentinels ws) ≡ length ws
length-sentinels [] = refl
length-sentinels (w ∷ ws) = omega (arith, length-sentinels ws)

pub begin_shutdown-Accounted : (p : EnginePool) → Accounted p → Accounted (begin_shutdown p)
unfolding begin_shutdown
begin_shutdown-Accounted p h = (
  omega (arith, h.0, length-append p.queue (sentinels p.workers), length-sentinels p.workers),
  λ t open_now. elim (h.1 t open_now) [
    | inl waits ↦ inl (ground (arith, waits, queued-append p.queue (sentinels p.workers) t))
    | inr held ↦ inr held
  ],
)

-- a worker that had no task is set to another state
reset-in_hand :
    (n : ℕ) (v w : Worker) (ws : List Worker) (t : ℕ)
    → worker_at n ws ≡ some w
    → holds w t ≡ false
    → in_hand ws t ≡ true
    → in_hand (set_worker n v ws) t ≡ true
reset-in_hand n v w ws t at free held = elim (in_hand-set_worker n v w ws t at held) [
  | inl mine ↦ ground (arith, mine, free)
  | inr kept ↦ kept
]

take_item-Accounted :
    (n engine : ℕ) (items : List Item) (p q : EnginePool)
    → worker_at n p.workers ≡ some (idle engine)
    → p.queue ≡ items
    → take_item n engine items p ≡ some q
    → Accounted p
    → Accounted q
unfolding take_item
take_item-Accounted n engine [] p q at e h a = absurd (none-some h)
take_item-Accounted n engine (sentinel ∷ rest) p q at e h a =
    let count = busy_count-set_worker n stopped (idle engine) p.workers at in
    let (counted, placed) = subst (λ is. Accounts p.unfinished is p.workers p.futures) e a in
    subst Accounted (some-injective h) (
      omega (arith, counted, count),
      λ t open_now. elim (placed t open_now) [
        | inl waits ↦ inl waits
        | inr held ↦ inr (reset-in_hand n stopped (idle engine) p.workers t at refl held)
      ],
    )
take_item-Accounted n engine (task u ∷ rest) p q at e h a =
    let count =
      busy_count-set_worker n (busy engine u p.shutting_down) (idle engine) p.workers at in
    let (counted, placed) = subst (λ is. Accounts p.unfinished is p.workers p.futures) e a in
    subst Accounted (some-injective h) (
      omega (arith, counted, count),
      λ t open_now. elim (placed t open_now) [
        | inl waits ↦ elim (Bool-cases (u == t)) [
          | inl mine ↦
              inr (new-in_hand n (busy engine u p.shutting_down) (idle engine) p.workers t at mine)
          | inr other ↦ inl (ground (arith, waits, other))
        ]
        | inr held ↦
            inr (
              reset-in_hand n (busy engine u p.shutting_down) (idle engine) p.workers t at refl
                held)
      ],
    )

pub worker_takes-Accounted :
    (n : ℕ) (o : Option Worker) (p q : EnginePool)
    → worker_at n p.workers ≡ o
    → worker_takes n o p ≡ some q
    → Accounted p
    → Accounted q
worker_takes-Accounted n none p q at h a = absurd (none-some h)
worker_takes-Accounted n (some (busy e t late)) p q at h a = absurd (none-some h)
worker_takes-Accounted n (some stopped) p q at h a = absurd (none-some h)
worker_takes-Accounted n (some (idle engine)) p q at h a =
    take_item-Accounted n engine p.queue p q at refl h a

end_task-Accounted :
    (n engine t : ℕ) (late : Bool) (p : EnginePool) (r : Worker × EnginePool)
    → worker_at n p.workers ≡ some (busy engine t late)
    → Ends t p r
    → Accounted p
    → Accounted (end_task n r)
unfolding end_task
end_task-Accounted n engine t late p (w, r) at ends a =
    let at' : worker_at n r.workers ≡ some (busy engine t late) = ap (worker_at n) ends.1 ∙ at in
    let count = busy_count-set_worker n w (busy engine t late) r.workers at' in
    (
      omega (arith, a.0, count, ends.2, ends.5, ap {B = ℕ} length ends.0, ap busy_count ends.1),
      λ u open_now.
          let (other, before) = ends.6 u open_now in
          elim (a.1 u before) [
            | inl waits ↦ inl (ap (λ (is : List Item). queued is u) ends.0 ∙ waits)
            | inr held ↦ inr (
                reset-in_hand n w (busy engine t late) r.workers u at' other
                  (ap (λ (ws : List Worker). in_hand ws u) ends.1 ∙ held))
          ],
    )

pub worker_ends-Accounted :
    (n : ℕ) (run : EngineRun) (o : Option Worker) (p q : EnginePool)
    → is_lost run.attempt ≡ false
    → worker_at n p.workers ≡ o
    → worker_ends n run o p ≡ some q
    → Accounted p
    → Accounted q
worker_ends-Accounted n run none p q kept at h a = absurd (none-some h)
worker_ends-Accounted n run (some (idle e)) p q kept at h a = absurd (none-some h)
worker_ends-Accounted n run (some stopped) p q kept at h a = absurd (none-some h)
worker_ends-Accounted n run (some (busy engine t late)) p q kept at h a =
    subst Accounted (some-injective h) (
      end_task-Accounted n engine t late p (dispatch_engine_task run late engine t p) at
        (Ends-dispatch run late engine t p kept) a)

pub worker_leaves-Accounted :
    (n : ℕ) (o : Option Worker) (p q : EnginePool)
    → worker_at n p.workers ≡ o
    → worker_leaves n o p ≡ some q
    → Accounted p
    → Accounted q
worker_leaves-Accounted n none p q at h a = absurd (none-some h)
worker_leaves-Accounted n (some (busy e t late)) p q at h a = absurd (none-some h)
worker_leaves-Accounted n (some stopped) p q at h a = absurd (none-some h)
worker_leaves-Accounted n (some (idle engine)) p q at h a = subst Accounted (some-injective h) (
  omega (arith, a.0, busy_count-set_worker n stopped (idle engine) p.workers at),
  λ t open_now. elim (a.1 t open_now) [
    | inl waits ↦ inl waits
    | inr held ↦ inr (reset-in_hand n stopped (idle engine) p.workers t at refl held)
  ],
)
