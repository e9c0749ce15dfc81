-- ===== src/Cache/Examples.antt =====
-- Concrete runs of blunder_tutor/cache/.
use chess_blunder_trainer.Common.{
  if◌then◌else◌, string_eq, ◌==◌, String, ℕ, ◌≡◌, refl, Option, none, some, List, [], ◌∷◌, contains,
  add_key, arith,
}
use chess_blunder_trainer.Common.Dict
use chess_blunder_trainer.Events.Types.{create_stats_updated, create_cache_invalidated}
use chess_blunder_trainer.Events.Bus.{new_bus, publish}
use chess_blunder_trainer.Cache.Backend.{
  InMemoryCacheBackend, new_backend, lookup, invalidate_tag, store_value, add_tags, keys_of,
}
use chess_blunder_trainer.Cache.Backend.Stale.{
  Op, do_lookup, do_store, do_delete, do_invalidate, run, tags_with, tags_without, stores,
  invalidated_is_gone, other_tags_stay,
}
use chess_blunder_trainer.Cache.Backend.Refines.{
  reference_run, reference_lookup, backend_refines_reference,
}
use chess_blunder_trainer.Cache.Decorator.{get_or_compute, IsTaggedOnly, is_apart, cached_for_ttl}
use chess_blunder_trainer.Cache.Invalidation.{scoped, event_tag, consume_event, event_invalidates}

abbrev traffic : List (Op ℕ)
traffic =
    do_store 1 "k" 7 (some 60) ("stats:a" ∷ [])
    ∷ do_store 2 "j" 8 none ("stats:b" ∷ [])
    ∷ do_lookup 5 "k"
    ∷ do_store 9 "k" 9 (some 60) ("stats:a" ∷ [])
    ∷ []

abbrev aftermath : List (Op ℕ)
aftermath = do_lookup 20 "k" ∷ do_store 21 "j" 3 none ("stats:b" ∷ []) ∷ do_delete "j" ∷ []

invalidated_is_gone_example :
    (lookup 30 "k" (run aftermath (invalidate_tag "stats:a" (run traffic new_backend)))).0 ≡ none
invalidated_is_gone_example =
    invalidated_is_gone traffic aftermath "k" "stats:a" 30
      (unfold tags_with contains in (refl, (refl, (refl, (refl, tt)))))
      (unfold stores in (refl, (refl, (refl, tt))))

other_tags_stay_example :
    (lookup 30 "j" (invalidate_tag "stats:a" (run traffic new_backend))).0
    ≡ (lookup 30 "j" (run traffic new_backend)).0
other_tags_stay_example =
    other_tags_stay traffic "j" "stats:a" 30
      (unfold tags_without contains in (refl, (refl, (refl, (refl, tt)))))

abbrev tags_of : String → List String
tags_of key = if key == "k" then "stats:a" ∷ [] else "stats:b" ∷ []

backend_refines_reference_example :
    (lookup 30 "k" (run traffic new_backend)).0
    ≡ reference_lookup 30 (reference_run traffic (λ key. none) "k")
backend_refines_reference_example =
    backend_refines_reference tags_of traffic 30 "k" (refl, (refl, (tt, (refl, tt))))

abbrev empty_backend : InMemoryCacheBackend ℕ
empty_backend = new_backend

-- while the factory runs, another task stores another key
abbrev busy_factory : ℕ → InMemoryCacheBackend ℕ → Option ℕ × InMemoryCacheBackend ℕ
busy_factory result b = (some result, store_value 3 "j" 5 none ("stats:b" ∷ []) b)

abbrev others : List (Op ℕ)
others = do_lookup 20 "k" ∷ do_store 21 "i" 3 none [] ∷ do_invalidate "stats:b" ∷ []

only_stats_a : IsTaggedOnly "k" "stats:a" (busy_factory 7 (lookup 1 "k" empty_backend).1).1
unfolding store_value add_tags keys_of lookup Dict.get Dict.put contains add_key
only_stats_a t other = ground arith

cached_for_ttl_example :
    let first = get_or_compute 1 4 "k" "stats:a" 60 (busy_factory 7) empty_backend in
    (get_or_compute 50 51 "k" "stats:a" 60 (busy_factory 8) (run others first.1)).0 ≡ some 7
cached_for_ttl_example =
    cached_for_ttl 1 4 50 51 60 60 "k" "stats:a" "stats:a" 7 (busy_factory 7) (busy_factory 8)
      empty_backend (busy_factory 7 (lookup 1 "k" empty_backend).1).1 others
      (unfold lookup Dict.get in refl) refl only_stats_a
      (unfold is_apart in (refl, (refl, (refl, tt))))

event_invalidates_example :
    let notice = create_cache_invalidated "a" ("stats" ∷ []) in
    let state = consume_event (create_stats_updated "a") (run traffic new_backend, new_bus) in
    ((lookup 30 "k" state.0).0 ≡ none)
    × (state.1 ≡ publish notice new_bus)
    × (consume_event notice state ≡ state)
event_invalidates_example =
    event_invalidates traffic "k" "stats" "a" (create_stats_updated "a") new_bus 30
      (unfold create_stats_updated event_tag in refl) (unfold create_stats_updated in refl)
      (unfold tags_with contains scoped in (refl, (refl, (refl, (refl, tt)))))
