-- ===== src/Events/Coalescing/Delivered.antt =====
-- What reaches the flush callback of blunder_tutor/events/coalescing.py, after any submits and waits.
use chess_blunder_trainer.Common.{
  ℕ, zero, suc, ◌≤◌, ◌<◌, ◌≡◌, refl, sym, Bool, true, false, List, [], ◌∷◌, ◌++◌, arith, All, keep,
}
use mathlib.Core.List.{append_assoc, append-nil}
use chess_blunder_trainer.Common.Dict
use chess_blunder_trainer.Common.Dict.{Dict, get-put}
use chess_blunder_trainer.Events.Types.{Event}
use chess_blunder_trainer.Events.Coalescing.{
  Key, key_eq, coalesced, CoalescingBroadcaster, new_broadcaster, FlushTask, no_task, sleeping,
  flushing, ended, submit, flush_after, flush_raises, aclose,
}
use chess_blunder_trainer.Events.Coalescing.Latest.{or_else, latest}
use chess_blunder_trainer.Events.Coalescing.Carries.{
  patience, in_flight, armed, passed, Carries, submit-Carries, flush_after-Carries, patience-step,
}

pub data Op : Type 0 where
  do_submit : Event → Op
  do_flush do_raise do_close : Op

unfoldable pub step : Op → CoalescingBroadcaster → CoalescingBroadcaster
step (do_submit e) s = submit e s
step do_flush s = flush_after s
step do_raise s = flush_raises s
step do_close s = aclose s

unfoldable pub run : List Op → CoalescingBroadcaster → CoalescingBroadcaster
run [] s = s
run (o ∷ os) s = run os (step o s)

-- the task goes on by itself for `n` steps
unfoldable pub settle : ℕ → CoalescingBroadcaster → CoalescingBroadcaster
settle zero s = s
settle (suc n) s = settle n (flush_after s)

unfoldable pub submitted : List Op → List Event
submitted [] = []
submitted (do_submit e ∷ os) = e ∷ submitted os
submitted (do_flush ∷ os) = submitted os
submitted (do_raise ∷ os) = submitted os
submitted (do_close ∷ os) = submitted os

-- neither does the callback raise nor is the broadcaster closed
unfoldable pub steady : Op → Bool
steady (do_submit e) = true
steady do_flush = true
steady do_raise = false
steady do_close = false

step-Carries :
    (o : Op) (s : CoalescingBroadcaster) (es : List Event)
    → steady o ≡ true
    → Carries s es
    → Carries (step o s) (es ++ submitted (o ∷ []))
unfolding step steady submitted
step-Carries (do_submit e) s es k h =
    submit-Carries s.window s.flushed es s.pending s.flush_task e h
step-Carries do_flush s es k h = rw (append-nil es) (flush_after-Carries s es h)
step-Carries do_raise s es k h = cc
step-Carries do_close s es k h = cc

submitted-cons : (o : Op) (os : List Op) → submitted (o ∷ os) ≡ submitted (o ∷ []) ++ submitted os
unfolding submitted
submitted-cons (do_submit e) os = refl
submitted-cons do_flush os = refl
submitted-cons do_raise os = refl
submitted-cons do_close os = refl

run-Carries :
    (os : List Op) (s : CoalescingBroadcaster) (es : List Event)
    → All (λ o. steady o ≡ true) os
    → Carries s es
    → Carries (run os s) (es ++ submitted os)
unfolding run
run-Carries [] s es k h = unfold submitted in rw (append-nil es) h
run-Carries (o ∷ os) s es (k, ks) h =
    rw (submitted-cons o os, sym (append_assoc es (submitted (o ∷ [])) (submitted os)))
      (run-Carries os (step o s) (es ++ submitted (o ∷ [])) ks (step-Carries o s es k h))

settle-Carries :
    (n : ℕ) (s : CoalescingBroadcaster) (es : List Event)
    → patience s ≤ n
    → Carries s es
    → Carries (settle n s) es × (patience (settle n s) ≡ 0)
unfolding settle
settle-Carries zero s es p h = (h, omega (arith, p))
settle-Carries (suc n) s es p h =
    settle-Carries n (flush_after s) es
      (omega (arith, p, patience-step s.window s.flushed s.pending s.flush_task))
      (flush_after-Carries s es h)

armed_idle :
    (w : ℕ) (d : Dict Key Event) (t : FlushTask) (f : List Event)
    → armed d t ≡ true
    → patience (record { window = w; pending = d; flush_task = t; flushed = f }) ≡ 0
    → (t ≡ no_task) × (d ≡ [])
unfolding armed patience
armed_idle w [] no_task f a p = (refl, refl)
armed_idle w (kv ∷ d) no_task f a p = cc
armed_idle w d sleeping f a p = absurd (omega (arith, p))
armed_idle w d (flushing es) f a p = absurd (omega (arith, p))
armed_idle w [] ended f a p = cc
armed_idle w (kv ∷ d) ended f a p = cc

new-Carries : (w : ℕ) → 0 < w → Carries (new_broadcaster w) []
unfolding armed in_flight keep Dict.get latest or_else
new-Carries w o = record {
  opened = o;
  keyed = record { unique = tt; keyed = tt };
  live = refl;
  quiet = refl;
  newest = λ k c. refl;
  direct = refl;
}

newest_idle :
    (s : CoalescingBroadcaster) (es : List Event) (k : Key)
    → Carries s es
    → coalesced k.type ≡ true
    → s.flush_task ≡ no_task
    → s.pending ≡ []
    → latest k s.flushed ≡ latest k es
unfolding Dict.get in_flight or_else latest
newest_idle s es k h c t d = ground (arith, h.newest k c, t, d)

-- With a window, after any submits and task steps in which no flush raises and the broadcaster is
-- not closed, the task by itself ends within `patience` steps with nothing parked; then the last
-- flushed event of every coalesced key is the last submitted one, and the other events are flushed
-- all, once each and in order.
pub coalescing_delivers :
    (window_ms : ℕ) (os : List Op)
    → 0 < window_ms
    → All (λ o. steady o ≡ true) os
    → let s = run os (new_broadcaster window_ms) in
      let s' = settle (patience s) s in
      (s'.flush_task ≡ no_task)
      × (s'.pending ≡ [])
      × ((k : Key) → coalesced k.type ≡ true → latest k s'.flushed ≡ latest k (submitted os))
      × (keep passed s'.flushed ≡ keep passed (submitted os))
coalescing_delivers window_ms os o k =
    let s = run os (new_broadcaster window_ms) in
    let (h, p) =
      settle-Carries (patience s) s (submitted os) (omega arith)
        (run-Carries os (new_broadcaster window_ms) [] k (new-Carries window_ms o)) in
    let s' = settle (patience s) s in
    let (ended_task, nothing) = armed_idle s'.window s'.pending s'.flush_task s'.flushed h.live p in
    (
      ended_task,
      nothing,
      λ key c. newest_idle s' (submitted os) key h c ended_task nothing,
      h.direct,
    )
