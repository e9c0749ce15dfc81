-- ===== src/Events/Bus/Reached.antt =====
-- What holds of the bus of blunder_tutor/events/event_bus.py after any sequence of its operations.
use chess_blunder_trainer.Common.{
  ℕ, ◌≡◌, refl, Option, none, some, List, [], ◌∷◌, ◌++◌, ◌==◌, if◌then◌else◌, if_both, nat_eq,
  contains, Bool-cases, inl, inr, arith,
}
use chess_blunder_trainer.Common.Dict
use chess_blunder_trainer.Common.Dict.{Dict, get-put}
use chess_blunder_trainer.Events.Types.{EventType, Event, event_type_eq}
use chess_blunder_trainer.Events.Bus.{
  EventBus, new_bus, subscribers_of, subscribe, publish, remove_first, unsubscribe,
}
use chess_blunder_trainer.Events.Bus.Delivery.{
  IsBus, Sound, Sound-add_all, Sound-add_some, Sound-suc, Sound-remove_all, Sound-remove_some,
}

pub data Op : Type 0 where
  do_subscribe : Option EventType → Op
  do_publish : Event → Op
  do_unsubscribe : ℕ → Option EventType → Op

unfoldable pub step : Op → EventBus → EventBus
step (do_subscribe t) b = (subscribe t b).1
step (do_publish e) b = publish e b
step (do_unsubscribe q t) b = unsubscribe q t b

unfoldable pub run : List Op → EventBus → EventBus
unfolding step
run [] b = b
run (o ∷ os) b = run os (step o b)

-- the subscribers of a type after a write to the table
pub subscribers_of-put :
    (b' b : EventBus) (t t' : EventType) (qs : List ℕ)
    → b'.subscribers ≡ Dict.put b.subscribers t qs
    → subscribers_of b' t' ≡ (if t == t' then qs else subscribers_of b t')
unfolding subscribers_of
subscribers_of-put b' b t t' qs p = ground (arith, p, get-put b.subscribers t t' qs)

subscribe-IsBus : (t : Option EventType) (b : EventBus) → IsBus b → IsBus (subscribe t b).1
unfolding subscribe subscribers_of
subscribe-IsBus none b h = λ t. Sound-add_all (subscribers_of b t) b.all_subscribers b.next (h t)
subscribe-IsBus (some t) b h = λ t'. elim (Bool-cases (t == t')) [
  | inl same ↦
      rw
        (
          subscribers_of-put (subscribe (some t) b).1 b t t' (subscribers_of b t ++ b.next ∷ [])
              refl,
          same,
        )
        (Sound-add_some (subscribers_of b t) b.all_subscribers b.next (h t))
  | inr other ↦
      rw
        (
          subscribers_of-put (subscribe (some t) b).1 b t t' (subscribers_of b t ++ b.next ∷ [])
              refl,
          other,
        )
        (Sound-suc (subscribers_of b t') b.all_subscribers b.next (h t'))
]

unsubscribe-IsBus :
    (q : ℕ) (t : Option EventType) (b : EventBus) → IsBus b → IsBus (unsubscribe q t b)
unfolding unsubscribe subscribers_of
unsubscribe-IsBus q none b h = λ t.
    if_both (λ ys. Sound (subscribers_of b t) ys b.next) (contains b.all_subscribers q)
      (remove_first q b.all_subscribers) b.all_subscribers
      (Sound-remove_all (subscribers_of b t) b.all_subscribers b.next q (h t)) (h t)
unsubscribe-IsBus q (some t) b h = λ t'.
    let rest =
      if contains (subscribers_of b t) q
      then remove_first q (subscribers_of b t)
      else subscribers_of b t in
    elim (Bool-cases (t == t')) [
      | inl same ↦
          rw (subscribers_of-put (unsubscribe q (some t) b) b t t' rest refl, same)
            (if_both (λ xs. Sound xs b.all_subscribers b.next) (contains (subscribers_of b t) q)
              (remove_first q (subscribers_of b t)) (subscribers_of b t)
              (Sound-remove_some (subscribers_of b t) b.all_subscribers b.next q (h t)) (h t))
      | inr other ↦
          rw (subscribers_of-put (unsubscribe q (some t) b) b t t' rest refl, other) (h t')
    ]

publish-IsBus : (e : Event) (b : EventBus) → IsBus b → IsBus (publish e b)
unfolding publish subscribers_of
publish-IsBus e b h = h

pub step-IsBus : (o : Op) (b : EventBus) → IsBus b → IsBus (step o b)
unfolding step
step-IsBus (do_subscribe t) b h = subscribe-IsBus t b h
step-IsBus (do_publish e) b h = publish-IsBus e b h
step-IsBus (do_unsubscribe q t) b h = unsubscribe-IsBus q t b h

pub run-IsBus : (os : List Op) (b : EventBus) → IsBus b → IsBus (run os b)
unfolding run
run-IsBus [] b h = h
run-IsBus (o ∷ os) b h = run-IsBus os (step o b) (step-IsBus o b h)

pub new_bus-IsBus : IsBus new_bus
unfolding subscribers_of Dict.get contains
new_bus-IsBus t = record { unique = tt; fresh = λ q m. absurd (cc m) }
