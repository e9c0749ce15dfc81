-- ===== src/Events/Bus/Listening.antt =====
-- Which lists of the bus of blunder_tutor/events/event_bus.py hold a queue, and what the queue receives.
use chess_blunder_trainer.Common.{
  ℕ, ◌<◌, ◌≡◌, refl, sym, ◌∙◌, Bool, true, false, Option, none, some, List, [], ◌∷◌, ◌++◌, ◌==◌,
  ◌||◌, ◌&&◌, not, if◌then◌else◌, nat_eq, contains, contains-append, Unique, arith, eq_refl,
  nat_beq_iff, All, append-nil,
}
use mathlib.Core.List.{append_assoc}
use chess_blunder_trainer.Common.Dict.{get-put}
use chess_blunder_trainer.Events.Types.{EventType, job_created, Event, event_type_eq}
use chess_blunder_trainer.Events.Bus.{
  EventBus, subscribers_of, contents, subscribe, targets, publish, remove_first, unsubscribe,
}
use chess_blunder_trainer.Events.Bus.Delivery.{
  IsBus, contents-put, not_old, contents-deliver, contains-remove_first, Unique-append_parts,
}
use chess_blunder_trainer.Events.Bus.Reached.{
  Op, do_subscribe, do_publish, do_unsubscribe, step, run, step-IsBus,
}

-- a subscription: to all types, to one type, or ended
abbrev pub Subscription : Type 0
Subscription = Option (Option EventType)

unfoldable pub by_type : Subscription → EventType → Bool
by_type none t' = false
by_type (some none) t' = false
by_type (some (some t)) t' = t == t'

unfoldable pub to_all : Subscription → Bool
to_all none = false
to_all (some none) = true
to_all (some (some t)) = false

-- the subscription asks for events of this type
unfoldable pub wants : Subscription → EventType → Bool
unfolding by_type to_all
wants s t = by_type s t || to_all s

-- the events published by a list of operations that a test on their type lets through, in order
unfoldable pub published : (EventType → Bool) → List Op → List Event
published m [] = []
published m (do_publish e ∷ os) = let rest = published m os in if m e.type then e ∷ rest else rest
published m (do_subscribe t ∷ os) = published m os
published m (do_unsubscribe q t ∷ os) = published m os

-- the operation does not unsubscribe the queue `q`
unfoldable pub keeps : ℕ → Op → Bool
keeps q (do_subscribe t) = true
keeps q (do_publish e) = true
keeps q (do_unsubscribe q' t) = not (q' == q)

-- The queue `q` is made and stands in the lists of its subscription `s`, and in no other.
pub record Listens (b : EventBus) (q : ℕ) (s : Subscription) : Type 0 where
  pub bus : IsBus b
  pub made : q < b.next
  pub typed : (t : EventType) → contains (subscribers_of b t) q ≡ by_type s t
  pub untyped : contains b.all_subscribers q ≡ to_all s

subscribe-Listens :
    (t : Option EventType) (b : EventBus) (q : ℕ) (s : Subscription)
    → Listens b q s
    → Listens (subscribe t b).1 q s
unfolding subscribe subscribers_of contains
subscribe-Listens none b q s h = record {
  bus = unfold step in step-IsBus (do_subscribe none) b h.bus;
  made = omega (arith, h.made);
  typed = h.typed;
  untyped = ground (
    arith,
    h.made,
    h.untyped,
    nat_beq_iff b.next q,
    contains-append b.all_subscribers (b.next ∷ []) q,
  );
}
subscribe-Listens (some t) b q s h = record {
  bus = unfold step in step-IsBus (do_subscribe (some t)) b h.bus;
  made = omega (arith, h.made);
  typed = λ t'. ground (
    arith,
    h.made,
    h.typed t,
    h.typed t',
    nat_beq_iff b.next q,
    event_type_eq.beq_iff t t',
    get-put b.subscribers t t' (subscribers_of b t ++ b.next ∷ []),
    contains-append (subscribers_of b t) (b.next ∷ []) q,
  );
  untyped = h.untyped;
}

module _ (b : EventBus) (h : IsBus b) (t : EventType) where
  Unique-typed : Unique (subscribers_of b t)
  Unique-typed = (Unique-append_parts (subscribers_of b t) b.all_subscribers (h t).unique).0

  Unique-untyped : Unique b.all_subscribers
  Unique-untyped = (Unique-append_parts (subscribers_of b t) b.all_subscribers (h t).unique).1

typed-unsubscribe :
    (b : EventBus) (q q' : ℕ) (t t' : EventType)
    → IsBus b
    → contains (subscribers_of (unsubscribe q' (some t) b) t') q
      ≡ contains (subscribers_of b t') q && not ((t == t') && (q' == q))
unfolding unsubscribe subscribers_of
typed-unsubscribe b q q' t t' h = ground (
  arith,
  event_type_eq.beq_iff t t',
  nat_beq_iff q' q,
  get-put b.subscribers t t' (
      if contains (subscribers_of b t) q'
      then remove_first q' (subscribers_of b t)
      else subscribers_of b t),
  contains-remove_first q' q (subscribers_of b t) (Unique-typed b h t),
)

untyped-unsubscribe :
    (b : EventBus) (q q' : ℕ)
    → IsBus b
    → contains (unsubscribe q' none b).all_subscribers q
      ≡ contains b.all_subscribers q && not (q' == q)
unfolding unsubscribe
untyped-unsubscribe b q q' h = ground (
  arith,
  nat_beq_iff q' q,
  contains-remove_first q' q b.all_subscribers (Unique-untyped b h job_created),
)

unsubscribe-Listens :
    (t : Option EventType) (b : EventBus) (q q' : ℕ) (s : Subscription)
    → (q' == q) ≡ false
    → Listens b q s
    → Listens (unsubscribe q' t b) q s
unsubscribe-Listens none b q q' s other h = record {
  bus = unfold step in step-IsBus (do_unsubscribe q' none) b h.bus;
  made = unfold unsubscribe in h.made;
  typed = unfold unsubscribe subscribers_of in h.typed;
  untyped = ground (arith, other, h.untyped, untyped-unsubscribe b q q' h.bus);
}
unsubscribe-Listens (some t) b q q' s other h = record {
  bus = unfold step in step-IsBus (do_unsubscribe q' (some t)) b h.bus;
  made = unfold unsubscribe in h.made;
  typed = λ t'. ground (arith, other, h.typed t', typed-unsubscribe b q q' t t' h.bus);
  untyped = unfold unsubscribe in h.untyped;
}

step-Listens :
    (o : Op) (b : EventBus) (q : ℕ) (s : Subscription)
    → keeps q o ≡ true
    → Listens b q s
    → Listens (step o b) q s
unfolding step keeps
step-Listens (do_subscribe t) b q s k h = subscribe-Listens t b q s h
step-Listens (do_publish e) b q s k h =
    unfold publish subscribers_of in
    record { bus = h.bus; made = h.made; typed = h.typed; untyped = h.untyped }
step-Listens (do_unsubscribe q' t) b q s k h = unsubscribe-Listens t b q q' s (ground (arith, k)) h

contents-subscribe :
    (t : Option EventType) (b : EventBus) (q : ℕ)
    → q < b.next
    → contents (subscribe t b).1.queues q ≡ contents b.queues q
unfolding subscribe
contents-subscribe none b q h =
    ground (arith, nat_beq_iff b.next q, contents-put b.queues b.next q [])
contents-subscribe (some t) b q h =
    ground (arith, nat_beq_iff b.next q, contents-put b.queues b.next q [])

step-contents :
    (o : Op) (b : EventBus) (q : ℕ) (s : Subscription)
    → Listens b q s
    → contents (step o b).queues q ≡ contents b.queues q ++ published (wants s) (o ∷ [])
unfolding step published wants publish targets unsubscribe
step-contents (do_subscribe t) b q s h =
    contents-subscribe t b q h.made ∙ sym (append-nil (contents b.queues q))
step-contents (do_publish e) b q s h = ground (
  arith,
  h.typed e.type,
  h.untyped,
  contains-append (subscribers_of b e.type) b.all_subscribers q,
  append-nil (contents b.queues q),
  contents-deliver (subscribers_of b e.type ++ b.all_subscribers) e b.queues q
      (h.bus e.type).unique,
)
step-contents (do_unsubscribe q' none) b q s h = sym (append-nil (contents b.queues q))
step-contents (do_unsubscribe q' (some t)) b q s h = sym (append-nil (contents b.queues q))

published-cons :
    (m : EventType → Bool) (o : Op) (os : List Op)
    → published m (o ∷ os) ≡ published m (o ∷ []) ++ published m os
unfolding published
published-cons m (do_subscribe t) os = refl
published-cons m (do_publish e) os = ground arith
published-cons m (do_unsubscribe q t) os = refl

-- A queue that listens gets exactly the events it asks for, in the order of publishing.
pub run-contents :
    (os : List Op) (b : EventBus) (q : ℕ) (s : Subscription)
    → Listens b q s
    → All (λ o. keeps q o ≡ true) os
    → Listens (run os b) q s
      × (contents (run os b).queues q ≡ contents b.queues q ++ published (wants s) os)
unfolding run
run-contents [] b q s h k = (h, unfold published in sym (append-nil (contents b.queues q)))
run-contents (o ∷ os) b q s h (k, ks) =
    let (h', p) = run-contents os (step o b) q s (step-Listens o b q s k h) ks in
    (
      h',
      cc (
        p,
        step-contents o b q s h,
        append_assoc (contents b.queues q) (published (wants s) (o ∷ [])) (published (wants s) os),
        published-cons (wants s) o os,
      ),
    )

absent :
    (b : EventBus) (t : EventType)
    → IsBus b
    → contains (subscribers_of b t ++ b.all_subscribers) b.next ≡ false
absent b t h = not_old (subscribers_of b t) b.all_subscribers b.next (h t)

pub subscribed-Listens :
    (t : Option EventType) (b : EventBus) → IsBus b → Listens (subscribe t b).1 b.next (some t)
subscribed-Listens none b h = record {
  bus = unfold step in step-IsBus (do_subscribe none) b h;
  made = unfold subscribe in omega arith;
  typed = λ t'.
      unfold subscribe subscribers_of by_type in
      ground (arith, absent b t' h, contains-append (subscribers_of b t') b.all_subscribers b.next);
  untyped =
      unfold subscribe to_all contains in
      ground (arith, eq_refl b.next, contains-append b.all_subscribers (b.next ∷ []) b.next);
}
subscribed-Listens (some t) b h = record {
  bus = unfold step in step-IsBus (do_subscribe (some t)) b h;
  made = unfold subscribe in omega arith;
  typed = λ t'.
      unfold subscribe subscribers_of by_type contains in
      ground (
        arith,
        absent b t' h,
        contains-append (subscribers_of b t') b.all_subscribers b.next,
        contains-append (subscribers_of b t) (b.next ∷ []) b.next,
        get-put b.subscribers t t' (subscribers_of b t ++ b.next ∷ []),
        eq_refl b.next,
      );
  untyped =
      unfold subscribe to_all in
      ground (arith, absent b t h, contains-append (subscribers_of b t) b.all_subscribers b.next);
}

pub unsubscribed-Listens :
    (t : Option EventType) (b : EventBus) (q : ℕ)
    → Listens b q (some t)
    → Listens (unsubscribe q t b) q none
unsubscribed-Listens none b q h = record {
  bus = unfold step in step-IsBus (do_unsubscribe q none) b h.bus;
  made = unfold unsubscribe in h.made;
  typed = unfold unsubscribe subscribers_of by_type in h.typed;
  untyped = unfold to_all in ground (arith, eq_refl q, untyped-unsubscribe b q q h.bus);
}
unsubscribed-Listens (some t) b q h = record {
  bus = unfold step in step-IsBus (do_unsubscribe q (some t)) b h.bus;
  made = unfold unsubscribe in h.made;
  typed = λ t'.
      unfold by_type in ground (arith, h.typed t', eq_refl q, typed-unsubscribe b q q t t' h.bus);
  untyped = unfold unsubscribe to_all in h.untyped;
}

pub contents-subscribed :
    (t : Option EventType) (b : EventBus) → contents (subscribe t b).1.queues b.next ≡ []
unfolding subscribe
contents-subscribed none b = ground (arith, eq_refl b.next, contents-put b.queues b.next b.next [])
contents-subscribed (some t) b =
    ground (arith, eq_refl b.next, contents-put b.queues b.next b.next [])

pub published-none : (os : List Op) → published (wants none) os ≡ []
unfolding published wants
published-none [] = refl
published-none (do_subscribe t ∷ os) = published-none os
published-none (do_publish e ∷ os) = published-none os
published-none (do_unsubscribe q t ∷ os) = published-none os

pub handle-subscribe : (t : Option EventType) (b : EventBus) → (subscribe t b).0 ≡ b.next
unfolding subscribe
handle-subscribe none b = refl
handle-subscribe (some t) b = refl

pub queues-unsubscribe :
    (q : ℕ) (t : Option EventType) (b : EventBus) → (unsubscribe q t b).queues ≡ b.queues
unfolding unsubscribe
queues-unsubscribe q none b = refl
queues-unsubscribe q (some t) b = refl
