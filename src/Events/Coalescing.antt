-- ===== src/Events/Coalescing.antt =====
-- CoalescingBroadcaster of blunder_tutor/events/coalescing.py. The lock is held over each change of the state, so
-- a step is what runs between two points where the code waits.
pub mod Latest
pub mod Carries
pub mod Delivered
use chess_blunder_trainer.Common.{
  ℕ, String, ◌≡◌, ◌↔◌, Bool, true, false, Option, none, some, List, [], ◌∷◌, ◌++◌, ◌==◌, ◌||◌, ◌&&◌,
  not, if◌then◌else◌, Eq, string_eq, arith, ltb, leb,
}
use chess_blunder_trainer.Common.Dict
use chess_blunder_trainer.Common.Dict.{Dict}
use chess_blunder_trainer.Events.Types.{
  EventType, Event, event_type_eq, stats_updated, job_progress_updated, traps_updated,
  training_updated,
}

-- `event.type in COALESCED_TYPES`
unfoldable pub coalesced : EventType → Bool
coalesced stats_updated = true
coalesced job_progress_updated = true
coalesced traps_updated = true
coalesced training_updated = true
coalesced _ = false

-- `tuple[str | None, EventType]`
pub record Key : Type 0 where
  pub owner : Option String
  pub type : EventType

abbrev pub same_owner : Option String → Option String → Bool
same_owner none none = true
same_owner none (some b) = false
same_owner (some a) none = false
same_owner (some a) (some b) = a == b

pub same_owner_iff : (a b : Option String) → (same_owner a b ≡ true) ↔ (a ≡ b)
same_owner_iff none none = ground arith
same_owner_iff none (some b) = ground arith
same_owner_iff (some a) none = ground arith
same_owner_iff (some a) (some b) = ground (arith, string_eq.beq_iff a b)

abbrev pub same_key : Key → Key → Bool
same_key a b = same_owner a.owner b.owner && (a.type == b.type)

pub same_key_iff : (a b : Key) → (same_key a b ≡ true) ↔ (a ≡ b)
same_key_iff a b =
    ground (arith, same_owner_iff a.owner b.owner, event_type_eq.beq_iff a.type b.type)

instance abbrev pub key_eq : Eq Key
key_eq = record { beq = same_key; beq_iff = same_key_iff }

unfoldable pub coalesce_key : Event → Key
coalesce_key e = record {
  owner = if e.type == job_progress_updated then e.payload.job_id else e.payload.scope;
  type = e.type;
}

-- The task of `_flush_after`: not there, in its sleep, with these events still to flush, or `done()`
-- because a flush has raised.
pub data FlushTask : Type 0 where
  no_task : FlushTask
  sleeping : FlushTask
  flushing : List Event → FlushTask
  ended : FlushTask

-- `flushed` is the list of the calls of `_flush`; a window of 0 stands for every window `<= 0`
pub record CoalescingBroadcaster : Type 0 where
  pub window : ℕ
  pub pending : Dict Key Event
  pub flush_task : FlushTask
  pub flushed : List Event

abbrev pub new_broadcaster : ℕ → CoalescingBroadcaster
new_broadcaster window_ms = record {
  window = window_ms;
  pending = [];
  flush_task = no_task;
  flushed = [];
}

-- `self._flush_task is None or self._flush_task.done()`, and then a new task
unfoldable pub arm : FlushTask → FlushTask
arm no_task = sleeping
arm sleeping = sleeping
arm (flushing es) = flushing es
arm ended = sleeping

unfoldable pub submit : Event → CoalescingBroadcaster → CoalescingBroadcaster
submit e s =
    if leb s.window 0 || not (coalesced e.type)
    then record s { flushed = s.flushed ++ e ∷ [] }
    else record s { pending = Dict.put s.pending (coalesce_key e) e; flush_task = arm s.flush_task }

-- `_flush_after` up to its next wait: the sleep ends, one event is flushed, or the task finishes and
-- arms itself again when events were parked meanwhile
unfoldable pub flush_after : CoalescingBroadcaster → CoalescingBroadcaster
flush_after s = elim s.flush_task [
  | no_task ↦ s
  | sleeping ↦ record s { pending = []; flush_task = flushing (Dict.values s.pending) }
  | flushing [] ↦ record s { flush_task = elim s.pending [ [] ↦ no_task | kv ∷ kvs ↦ sleeping ] }
  | flushing (e ∷ es) ↦ record s { flush_task = flushing es; flushed = s.flushed ++ e ∷ [] }
  | ended ↦ s
]

-- `await self._flush(event)` raises in the task
unfoldable pub flush_raises : CoalescingBroadcaster → CoalescingBroadcaster
flush_raises s = elim s.flush_task [
  | flushing (e ∷ es) ↦ record s { flush_task = ended; flushed = s.flushed ++ e ∷ [] }
  | _ ↦ s
]

unfoldable pub aclose : CoalescingBroadcaster → CoalescingBroadcaster
aclose s = record s { flush_task = no_task }
