-- ===== src/Cache/Invalidation.antt =====
-- CacheInvalidator and clear_user_cache of blunder_tutor/cache/invalidation.py, over the backend and the bus.
use chess_blunder_trainer.Common.{
  ℕ, String, ◌≡◌, refl, true, Option, none, some, List, [], ◌∷◌, string_eq, All,
}
use Prim.Native.String.{◌++◌}
use chess_blunder_trainer.Events.Types.{
  EventType, Event, stats_updated, traps_updated, training_updated, elo_rating_updated,
  create_cache_invalidated,
}
use chess_blunder_trainer.Events.Bus.{EventBus, publish}
use chess_blunder_trainer.Cache.Backend.{InMemoryCacheBackend, new_backend, lookup, invalidate_tag}
use chess_blunder_trainer.Cache.Backend.Stale.{Op, run, tags_with, invalidated_is_gone}

abbrev pub cache_tags : List String
cache_tags = "stats" ∷ "traps" ∷ "training" ∷ "elo_rating" ∷ []

-- EVENT_TAG_MAPPING
unfoldable pub event_tag : EventType → Option String
event_tag stats_updated = some "stats"
event_tag traps_updated = some "traps"
event_tag training_updated = some "training"
event_tag elo_rating_updated = some "elo_rating"
event_tag _ = none

-- f"{tag}:{scope}"
unfoldable pub scoped : String → String → String
scoped tag scope = tag ++ ":" ++ scope

module _ {ℓ} {V : Type ℓ} where
  unfoldable pub clear_tags : List String → String → InMemoryCacheBackend V → InMemoryCacheBackend V
  clear_tags [] scope b = b
  clear_tags (tag ∷ tags) scope b = clear_tags tags scope (invalidate_tag (scoped tag scope) b)

  unfoldable pub clear_user_cache :
      String → InMemoryCacheBackend V → List String × InMemoryCacheBackend V
  clear_user_cache scope b = (cache_tags, clear_tags cache_tags scope b)

  unfoldable pub handle_event :
      String → Event → InMemoryCacheBackend V × EventBus → InMemoryCacheBackend V × EventBus
  handle_event tag_base e (b, bus) = elim e.payload.scope [
    | none ↦ (b, bus)
    | some scope ↦ (
      invalidate_tag (scoped tag_base scope) b,
      publish (create_cache_invalidated scope (tag_base ∷ [])) bus,
    )
  ]

  -- one turn of `_consume_loop`
  unfoldable pub consume_event :
      Event → InMemoryCacheBackend V × EventBus → InMemoryCacheBackend V × EventBus
  consume_event e state = elim (event_tag e.type) [
    | none ↦ state
    | some tag_base ↦ handle_event tag_base e state
  ]

  -- Let every store of a key carry the tag of an event type in a scope. After any operations, such an
  -- event makes a lookup of the key miss at every time and publishes one event, which consumed in its
  -- turn changes nothing.
  pub event_invalidates :
      (before : List (Op V)) (key tag_base scope : String) (e : Event) (bus : EventBus) (now : ℕ)
      → event_tag e.type ≡ some tag_base
      → e.payload.scope ≡ some scope
      → All (λ o. tags_with key (scoped tag_base scope) o ≡ true) before
      → let notice = create_cache_invalidated scope (tag_base ∷ []) in
        let state = consume_event e (run before new_backend, bus) in
        ((lookup now key state.0).0 ≡ none)
        × (state.1 ≡ publish notice bus)
        × (consume_event notice state ≡ state)
  unfolding consume_event handle_event create_cache_invalidated event_tag
  event_invalidates before key tag_base scope e bus now t s w = (
    rw (t, consume_event, s)
        (unfold run in invalidated_is_gone before [] key (scoped tag_base scope) now w tt),
    rw (t, consume_event, s) refl,
    refl,
  )
