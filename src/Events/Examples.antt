-- ===== src/Events/Examples.antt =====
-- Concrete runs of blunder_tutor/events/event_bus.py and blunder_tutor/events/coalescing.py.
use chess_blunder_trainer.Common.{◌≡◌, refl, true, some, none, List, [], ◌∷◌, keep, arith}
use chess_blunder_trainer.Events.Types.{
  Event, create_stats_updated, create_status_changed, create_traps_updated, stats_updated,
}
use chess_blunder_trainer.Events.Bus.{contents, subscribe, publish, unsubscribe}
use chess_blunder_trainer.Events.Bus.Reached.{
  Op, do_subscribe, do_publish, do_unsubscribe, step, run,
}
use chess_blunder_trainer.Events.Bus.Listening.{published, wants, keeps}
use chess_blunder_trainer.Events.Bus.Window.{handle, opened, subscription_window}
use chess_blunder_trainer.Events.Coalescing.{Key, coalesced, new_broadcaster, no_task}
use chess_blunder_trainer.Events.Coalescing.Latest.{latest}
use chess_blunder_trainer.Events.Coalescing.Carries.{passed, patience}
use chess_blunder_trainer.Events.Coalescing.Delivered.{
  settle, submitted, steady, coalescing_delivers,
}
use chess_blunder_trainer.Events.Coalescing.Delivered

abbrev stats_a : Event
stats_a = create_stats_updated "a"

abbrev stats_b : Event
stats_b = create_stats_updated "b"

abbrev traps_a : Event
traps_a = create_traps_updated "a"

abbrev earlier : List Op
earlier = do_subscribe none ∷ do_publish stats_a ∷ do_unsubscribe 0 none ∷ []

abbrev meanwhile : List Op
meanwhile = do_publish stats_b ∷ do_publish traps_a ∷ do_subscribe none ∷ do_publish stats_a ∷ []

abbrev later : List Op
later = do_publish stats_b ∷ do_unsubscribe 2 none ∷ []

subscription_window_example :
    contents
      (run later (
        unsubscribe
          (handle earlier (some stats_updated))
          (some stats_updated)
          (run meanwhile (opened earlier (some stats_updated))))).queues
      (handle earlier (some stats_updated))
    ≡ published (wants (some (some stats_updated))) meanwhile
subscription_window_example =
    subscription_window earlier meanwhile later (some stats_updated)
      (unfold keeps run subscribe publish unsubscribe step in (refl, (refl, (refl, (refl, tt)))))
      (unfold keeps run subscribe publish unsubscribe step in (refl, (refl, tt)))

published_run : published (wants (some (some stats_updated))) meanwhile ≡ stats_b ∷ stats_a ∷ []
unfolding published wants create_stats_updated create_traps_updated
published_run = refl

abbrev burst : List Delivered.Op
burst =
    Delivered.do_submit stats_a
    ∷ Delivered.do_submit stats_b
    ∷ Delivered.do_flush
    ∷ Delivered.do_submit (create_status_changed "j" "sync" "running" none)
    ∷ Delivered.do_submit stats_a
    ∷ Delivered.do_flush
    ∷ []

coalescing_delivers_example :
    let s = Delivered.run burst (new_broadcaster 250) in
    let s' = settle (patience s) s in
    (s'.flush_task ≡ no_task)
    × (s'.pending ≡ [])
    × ((k : Key) → coalesced k.type ≡ true → latest k s'.flushed ≡ latest k (submitted burst))
    × (keep passed s'.flushed ≡ keep passed (submitted burst))
coalescing_delivers_example =
    coalescing_delivers 250 burst (omega arith)
      (unfold steady in (refl, (refl, (refl, (refl, (refl, (refl, tt)))))))
