-- ===== src/Events/Coalescing/Carries.antt =====
-- One step of blunder_tutor/events/coalescing.py, seen from the submitted events.
use chess_blunder_trainer.Common.{
  ℕ, suc, ◌+◌, ◌-◌, ◌≤◌, ◌<◌, ◌≡◌, refl, sym, ap, ◌∙◌, Bool, true, false, List, [], ◌∷◌, ◌++◌, ◌==◌,
  not, arith, length, keep, Bool-cases, inl, inr,
}
use mathlib.Core.List.{append-nil}
use chess_blunder_trainer.Common.Dict
use chess_blunder_trainer.Common.Dict.{Dict, get-put}
use chess_blunder_trainer.Events.Types.{Event}
use chess_blunder_trainer.Events.Coalescing.{
  Key, key_eq, coalesce_key, coalesced, CoalescingBroadcaster, FlushTask, no_task, sleeping,
  flushing, ended, arm, submit, flush_after,
}
use chess_blunder_trainer.Events.Coalescing.Latest.{
  or_else, latest, latest-append, WellKeyed, WellKeyed-put, latest-values,
}

unfoldable pub in_flight : FlushTask → List Event
in_flight no_task = []
in_flight sleeping = []
in_flight (flushing es) = es
in_flight ended = []

-- enough steps for the task to end
unfoldable pub patience : CoalescingBroadcaster → ℕ
patience s = elim s.flush_task [
  | no_task ↦ 0
  | sleeping ↦ 2 + length s.pending
  | flushing es ↦ length es + 1 + elim s.pending [ [] ↦ 0 | kv ∷ kvs ↦ 2 + length s.pending ]
  | ended ↦ 0
]

-- the task runs whenever an event is parked
unfoldable pub armed : Dict Key Event → FlushTask → Bool
armed [] no_task = true
armed (kv ∷ d) no_task = false
armed d sleeping = true
armed d (flushing es) = true
armed d ended = false

unfoldable pub passed : Event → Bool
passed e = not (coalesced e.type)

-- The state `s` accounts for the events `es` that were submitted.
pub record Carries (s : CoalescingBroadcaster) (es : List Event) : Type 0 where
  pub opened : 0 < s.window
  pub keyed : WellKeyed s.pending
  pub live : armed s.pending s.flush_task ≡ true
  pub quiet : keep passed (in_flight s.flush_task ++ Dict.values s.pending) ≡ []
  pub newest :
      (k : Key)
      → coalesced k.type ≡ true
      → or_else
          (Dict.get s.pending k)
          (or_else (latest k (in_flight s.flush_task)) (latest k s.flushed))
        ≡ latest k es
  pub direct : keep passed s.flushed ≡ keep passed es

length-values : (d : Dict Key Event) → length (Dict.values d) ≡ length d
length-values [] = refl
length-values ((k, e) ∷ d) = ap suc (length-values d)

pub keep-append :
    (p : Event → Bool) (xs ys : List Event) → keep p (xs ++ ys) ≡ keep p xs ++ keep p ys
unfolding keep
keep-append p [] ys = refl
keep-append p (x ∷ xs) ys = ground (arith, keep-append p xs ys)

append_is_nil : (xs ys : List Event) → xs ++ ys ≡ [] → (xs ≡ []) × (ys ≡ [])
append_is_nil [] ys p = (refl, p)
append_is_nil (x ∷ xs) ys p = ground (arith, p)

passed-coalesced : (e : Event) → coalesced e.type ≡ true → passed e ≡ false
unfolding passed
passed-coalesced e c = ground (arith, c)

keep-values-put :
    (d : Dict Key Event) (k : Key) (e : Event)
    → passed e ≡ false
    → keep passed (Dict.values d) ≡ []
    → keep passed (Dict.values (Dict.put d k e)) ≡ []
unfolding keep Dict.put
keep-values-put [] k e p h = ground (arith, p)
keep-values-put ((j, v) ∷ d) k e p h = ground (arith, p, keep-values-put d k e p)

other_key :
    (e : Event) (k : Key)
    → coalesced e.type ≡ false
    → coalesced k.type ≡ true
    → (coalesce_key e == k) ≡ false
other_key e k p c = elim (Bool-cases (coalesce_key e == k)) [
  | inl same ↦
      unfold coalesce_key in ground (arith, p, c, (key_eq.beq_iff (coalesce_key e) k).0 same)
  | inr other ↦ other
]

armed-arm : (d : Dict Key Event) (t : FlushTask) → armed d (arm t) ≡ true
unfolding armed arm
armed-arm d no_task = refl
armed-arm d sleeping = refl
armed-arm d (flushing es) = refl
armed-arm d ended = refl

in_flight-arm : (t : FlushTask) → in_flight (arm t) ≡ in_flight t
unfolding in_flight arm
in_flight-arm no_task = refl
in_flight-arm sleeping = refl
in_flight-arm (flushing es) = refl
in_flight-arm ended = refl

module _ (w : ℕ) (f : List Event) where
  abbrev at : Dict Key Event → FlushTask → CoalescingBroadcaster
  at d t = record { window = w; pending = d; flush_task = t; flushed = f }

  pub patience-step :
      (d : Dict Key Event) (t : FlushTask) → patience (flush_after (at d t)) ≤ patience (at d t) - 1
  unfolding patience flush_after
  patience-step d no_task = omega arith
  patience-step d sleeping = omega (arith, length-values d)
  patience-step [] (flushing []) = omega arith
  patience-step (kv ∷ d) (flushing []) = omega arith
  patience-step [] (flushing (e ∷ es)) = omega arith
  patience-step (kv ∷ d) (flushing (e ∷ es)) = omega arith
  patience-step d ended = omega arith

  module _ (es : List Event) where
    flush-Carries :
        (d : Dict Key Event) (t : FlushTask)
        → Carries (at d t) es
        → Carries (flush_after (at d t)) es
    unfolding flush_after armed in_flight
    flush-Carries d no_task h = h
    flush-Carries d sleeping h = record {
      opened = h.opened;
      keyed = record { unique = tt; keyed = tt };
      live = refl;
      quiet = rw (append-nil (Dict.values d)) h.quiet;
      newest = λ k c.
          unfold Dict.get latest or_else in
          rw (latest-values d k h.keyed) (unfold Dict.get latest or_else in h.newest k c);
      direct = h.direct;
    }
    flush-Carries [] (flushing []) h = record {
      opened = h.opened;
      keyed = h.keyed;
      live = refl;
      quiet = h.quiet;
      newest = h.newest;
      direct = h.direct;
    }
    flush-Carries (kv ∷ d) (flushing []) h = record {
      opened = h.opened;
      keyed = h.keyed;
      live = refl;
      quiet = h.quiet;
      newest = h.newest;
      direct = h.direct;
    }
    flush-Carries d (flushing (e ∷ rest)) h = record {
      opened = h.opened;
      keyed = h.keyed;
      live = refl;
      quiet = unfold keep in ground (arith, h.quiet);
      newest =
          λ k c. unfold latest or_else in ground (arith, h.newest k c, latest-append k f (e ∷ []));
      direct =
          unfold keep in
          ground
            (arith, h.quiet, h.direct, keep-append passed f (e ∷ []), append-nil (keep passed f));
    }
    flush-Carries d ended h = h

    submit-parked :
        (d : Dict Key Event) (t : FlushTask) (e : Event)
        → 0 < w
        → coalesced e.type ≡ true
        → submit e (at d t) ≡ at (Dict.put d (coalesce_key e) e) (arm t)
    unfolding submit
    submit-parked d t e o c = ground (arith, c)

    submit-passed :
        (d : Dict Key Event) (t : FlushTask) (e : Event)
        → coalesced e.type ≡ false
        → submit e (at d t) ≡ record (at d t) { flushed = f ++ e ∷ [] }
    unfolding submit
    submit-passed d t e c = ground (arith, c)

    park-Carries :
        (d : Dict Key Event) (t : FlushTask) (e : Event)
        → coalesced e.type ≡ true
        → Carries (at d t) es
        → Carries (at (Dict.put d (coalesce_key e) e) (arm t)) (es ++ e ∷ [])
    park-Carries d t e c h = record {
      opened = h.opened;
      keyed = WellKeyed-put d e h.keyed;
      live = armed-arm (Dict.put d (coalesce_key e) e) t;
      quiet =
          rw
            (
              in_flight-arm t,
              keep-append passed (in_flight t) (Dict.values (Dict.put d (coalesce_key e) e)),
            )
            (let parts =
                append_is_nil (keep passed (in_flight t)) (keep passed (Dict.values d))
                  (sym (keep-append passed (in_flight t) (Dict.values d)) ∙ h.quiet) in
              rw (parts.0) (keep-values-put d (coalesce_key e) e (passed-coalesced e c) parts.1));
      newest = λ k ck. rw (in_flight-arm t) (
          unfold latest or_else in
          ground
            (arith, h.newest k ck, latest-append k es (e ∷ []), get-put d (coalesce_key e) k e));
      direct =
          unfold keep in
          ground (
            arith,
            h.direct,
            keep-append passed es (e ∷ []),
            append-nil (keep passed es),
            passed-coalesced e c,
          );
    }

    pass-Carries :
        (d : Dict Key Event) (t : FlushTask) (e : Event)
        → coalesced e.type ≡ false
        → Carries (at d t) es
        → Carries (record (at d t) { flushed = f ++ e ∷ [] }) (es ++ e ∷ [])
    pass-Carries d t e c h = record {
      opened = h.opened;
      keyed = h.keyed;
      live = h.live;
      quiet = h.quiet;
      newest = λ k ck.
          unfold latest or_else in
          ground (
            arith,
            h.newest k ck,
            latest-append k es (e ∷ []),
            latest-append k f (e ∷ []),
            other_key e k c ck,
          );
      direct = rw (keep-append passed f (e ∷ []), keep-append passed es (e ∷ []), h.direct) refl;
    }

    pub submit-Carries :
        (d : Dict Key Event) (t : FlushTask) (e : Event)
        → Carries (at d t) es
        → Carries (submit e (at d t)) (es ++ e ∷ [])
    submit-Carries d t e h = elim (Bool-cases (coalesced e.type)) [
      | inl c ↦ rw (submit-parked d t e h.opened c) (park-Carries d t e c h)
      | inr c ↦ rw (submit-passed d t e c) (pass-Carries d t e c h)
    ]

pub flush_after-Carries :
    (s : CoalescingBroadcaster) (es : List Event) → Carries s es → Carries (flush_after s) es
flush_after-Carries s es h = flush-Carries s.window s.flushed es s.pending s.flush_task h
