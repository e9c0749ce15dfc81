-- ===== src/Events/Bus/Window.antt =====
-- What one subscriber of the bus of blunder_tutor/events/event_bus.py receives over its life.
use chess_blunder_trainer.Common.{ℕ, ◌≡◌, true, Option, none, some, List, nat_eq, All, append-nil}
use chess_blunder_trainer.Events.Types.{EventType, event_type_eq}
use chess_blunder_trainer.Events.Bus.{EventBus, new_bus, contents, subscribe, unsubscribe}
use chess_blunder_trainer.Events.Bus.Reached.{Op, run, run-IsBus, new_bus-IsBus}
use chess_blunder_trainer.Events.Bus.Listening.{
  wants, published, keeps, run-contents, subscribed-Listens, unsubscribed-Listens,
  contents-subscribed, published-none, handle-subscribe, queues-unsubscribe,
}

-- the queue that `subscribe` returns after some operations, and the bus after unsubscribing it
abbrev pub handle : List Op → Option EventType → ℕ
handle before t = (subscribe t (run before new_bus)).0

abbrev pub opened : List Op → Option EventType → EventBus
opened before t = (subscribe t (run before new_bus)).1

-- After any operations, let a queue be subscribed to one type or to all, let operations follow that do
-- not unsubscribe it, let it be unsubscribed, and let such operations follow again: the queue then
-- holds exactly the events of its type published between, each once and in the order of publishing.
pub subscription_window :
    (before during after : List Op) (t : Option EventType)
    → All (λ o. keeps (handle before t) o ≡ true) during
    → All (λ o. keeps (handle before t) o ≡ true) after
    → contents
        (run after (unsubscribe (handle before t) t (run during (opened before t)))).queues
        (handle before t)
      ≡ published (wants (some t)) during
subscription_window before during after t kd ka =
    let b = run before new_bus in
    let q = handle before t in
    let fresh = run-IsBus before new_bus new_bus-IsBus in
    let (heard, got) =
      run-contents during (opened before t) q (some t)
        (rw (handle-subscribe t b) (subscribed-Listens t b fresh)) kd in
    let (gone, kept) =
      run-contents after (unsubscribe q t (run during (opened before t))) q none
        (unsubscribed-Listens t (run during (opened before t)) q heard) ka in
    cc (
      got,
      kept,
      published-none after,
      append-nil (contents (run during (opened before t)).queues q),
      queues-unsubscribe q t (run during (opened before t)),
      contents-subscribed t b,
      handle-subscribe t b,
    )
