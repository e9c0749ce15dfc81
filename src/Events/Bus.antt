-- ===== src/Events/Bus.antt =====
-- EventBus of blunder_tutor/events/event_bus.py. A queue is a number; its contents are what was put and not taken.
-- The lock is held over each change of the lists, so an operation is one step.
pub mod Delivery
pub mod Reached
pub mod Listening
pub mod Window
use chess_blunder_trainer.Common.{
  ℕ, ◌+◌, Bool, true, false, Option, none, some, List, [], ◌∷◌, ◌++◌, ◌==◌, if◌then◌else◌, nat_eq,
  contains,
}
use chess_blunder_trainer.Common.Dict
use chess_blunder_trainer.Common.Dict.{Dict}
use chess_blunder_trainer.Events.Types.{EventType, Event, event_type_eq}

pub record EventBus : Type 0 where
  pub subscribers : Dict EventType (List ℕ)
  pub all_subscribers : List ℕ
  pub queues : Dict ℕ (List Event)
  -- the next queue that `asyncio.Queue()` makes
  pub next : ℕ

abbrev pub new_bus : EventBus
new_bus = record { subscribers = []; all_subscribers = []; queues = []; next = 0 }

-- `self._subscribers.get(t, [])`, which a `defaultdict` agrees with
unfoldable pub subscribers_of : EventBus → EventType → List ℕ
subscribers_of b t = elim (Dict.get b.subscribers t) [ none ↦ [] | some qs ↦ qs ]

unfoldable pub contents : Dict ℕ (List Event) → ℕ → List Event
contents d q = elim (Dict.get d q) [ none ↦ [] | some es ↦ es ]

unfoldable pub subscribe : Option EventType → EventBus → ℕ × EventBus
subscribe none b = (
  b.next,
  record b {
    all_subscribers = b.all_subscribers ++ b.next ∷ [];
    queues = Dict.put b.queues b.next [];
    next = b.next + 1;
  },
)
subscribe (some t) b = (
  b.next,
  record b {
    subscribers = Dict.put b.subscribers t (subscribers_of b t ++ b.next ∷ []);
    queues = Dict.put b.queues b.next [];
    next = b.next + 1;
  },
)

-- the queues that an event of type `t` goes to, in this order
unfoldable pub targets : EventBus → EventType → List ℕ
targets b t = subscribers_of b t ++ b.all_subscribers

-- `for queue in queues: queue.put_nowait(event)`
unfoldable pub deliver : List ℕ → Event → Dict ℕ (List Event) → Dict ℕ (List Event)
deliver [] event d = d
deliver (q ∷ qs) event d = deliver qs event (Dict.put d q (contents d q ++ event ∷ []))

unfoldable pub publish : Event → EventBus → EventBus
publish event b = record b { queues = deliver (targets b event.type) event b.queues }

-- `list.remove`: the first occurrence; the code asks for membership before
unfoldable pub remove_first : ℕ → List ℕ → List ℕ
remove_first q [] = []
remove_first q (x ∷ xs) = let rest = remove_first q xs in if x == q then xs else x ∷ rest

unfoldable pub unsubscribe : ℕ → Option EventType → EventBus → EventBus
unsubscribe q none b = record b {
  all_subscribers =
      if contains b.all_subscribers q then remove_first q b.all_subscribers else b.all_subscribers;
}
unsubscribe q (some t) b = record b {
  subscribers = Dict.put b.subscribers t (
      if contains (subscribers_of b t) q
      then remove_first q (subscribers_of b t)
      else subscribers_of b t);
}
