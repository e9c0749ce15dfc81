-- ===== src/Cache/Decorator.antt =====
-- `_get_or_compute` of blunder_tutor/cache/decorator.py, over the backend. The key is the digest that
-- `_build_cache_key` makes. What the factory gives, `none` when it raises, comes with the backend as the other tasks have
-- left it by then.
use chess_blunder_trainer.Common.{
  ℕ, ◌-◌, ◌⊎◌, inl, inr, String, ◌≡◌, Bool, true, false, Option, none, some, List, [], ◌∷◌, not,
  refl, ap, ◌==◌, if◌then◌else◌, ltb, leb, string_eq, contains, arith, eq_refl, All, Bool-cases,
}
use chess_blunder_trainer.Common.Dict
use chess_blunder_trainer.Common.Dict.{get-put, get-remove}
use chess_blunder_trainer.Cache.Backend.{
  CacheEntry, InMemoryCacheBackend, keys_of, lookup, store_value, invalidate_tag, expired,
  remove_key,
}
use chess_blunder_trainer.Cache.Backend.Stale.{
  Op, do_lookup, do_store, do_delete, do_invalidate, do_clear, step, run, tagged, tags_without,
  untagged-step, get-drop_keys,
}

-- after the factory, at the given time
unfoldable pub store_result {ℓ} :
    {V : Type ℓ}
    → ℕ
    → String
    → String
    → ℕ
    → Option V × InMemoryCacheBackend V
    → Option V × InMemoryCacheBackend V
store_result finished cache_key scoped_tag ttl (none, b) = (none, b)
store_result finished cache_key scoped_tag ttl (some result, b) =
    (some result, store_value finished cache_key result (some ttl) (scoped_tag ∷ []) b)

unfoldable pub get_or_compute {ℓ} :
    {V : Type ℓ}
    → ℕ
    → ℕ
    → String
    → String
    → ℕ
    → (InMemoryCacheBackend V → Option V × InMemoryCacheBackend V)
    → InMemoryCacheBackend V
    → Option V × InMemoryCacheBackend V
get_or_compute now finished cache_key scoped_tag ttl factory b = elim (lookup now cache_key b).0 [
  | some value ↦ (some value, (lookup now cache_key b).1)
  | none ↦ store_result finished cache_key scoped_tag ttl (factory (lookup now cache_key b).1)
]

result-store_result {ℓ} :
    {V : Type ℓ} (finished : ℕ) (key tag : String) (ttl : ℕ) (r : Option V × InMemoryCacheBackend V)
    → (store_result finished key tag ttl r).0 ≡ r.0
unfolding store_result
result-store_result finished key tag ttl (none, b) = refl
result-store_result finished key tag ttl (some value, b) = refl

module _ {ℓ} {V : Type ℓ} where
  -- up to the given time, the operation neither writes nor deletes the key, nor invalidates the tag, nor clears
  unfoldable pub is_apart : ℕ → String → String → Op V → Bool
  is_apart later key tag (do_lookup now k) = leb now later
  is_apart later key tag (do_store now k value ttl tags) = not (k == key)
  is_apart later key tag (do_delete k) = not (k == key)
  is_apart later key tag (do_invalidate t) = not (t == tag)
  is_apart later key tag do_clear = false

  -- the key is in the set of no tag but this one
  abbrev pub IsTaggedOnly : String → String → InMemoryCacheBackend V → Type 0
  IsTaggedOnly key tag b = (t : String) → (t == tag) ≡ false → tagged key t b ≡ false

  -- the entry is there, or it has gone because it has expired by then
  abbrev Serves : ℕ → String → CacheEntry V → InMemoryCacheBackend V → Type ℓ
  Serves later key entry b =
      (Dict.get b.store key ≡ some entry)
      ⊎ ((Dict.get b.store key ≡ none) × (expired later entry ≡ true))

  expired-later :
      (now later : ℕ) (entry : CacheEntry V)
      → leb now later ≡ true
      → expired now entry ≡ true
      → expired later entry ≡ true
  unfolding expired
  expired-later now later entry h e = ground (arith, h, e)

  lookup-Serves :
      (later now : ℕ) (key k : String) (entry : CacheEntry V) (b : InMemoryCacheBackend V)
      → leb now later ≡ true
      → Serves later key entry b
      → Serves later key entry (lookup now k b).1
  unfolding lookup remove_key
  lookup-Serves later now key k entry b h (inl there) = ground (
    arith,
    h,
    there,
    get-remove b.store k key,
    string_eq.beq_iff k key,
    expired-later now later entry h,
  )
  lookup-Serves later now key k entry b h (inr (gone, old)) =
      ground (arith, gone, old, get-remove b.store k key)

  step-Serves :
      (later : ℕ) (key tag : String) (entry : CacheEntry V) (o : Op V) (b : InMemoryCacheBackend V)
      → is_apart later key tag o ≡ true
      → IsTaggedOnly key tag b
      → Serves later key entry b
      → Serves later key entry (step o b)
  unfolding step is_apart store_value remove_key invalidate_tag
  step-Serves later key tag entry (do_lookup now k) b w only h =
      lookup-Serves later now key k entry b w h
  step-Serves later key tag entry (do_store now k value ttl tags) b w only h =
      ground
        (arith, w, h, get-put b.store k key (record { value = value; created_at = now; ttl = ttl }))
  step-Serves later key tag entry (do_delete k) b w only h =
      ground (arith, w, h, get-remove b.store k key)
  step-Serves later key tag entry (do_invalidate t) b w only h =
      ground (arith, w, h, only t, get-drop_keys (keys_of b.tag_index t) b.store key)
  step-Serves later key tag entry do_clear b w only h = ground (arith, w)

  step-IsTaggedOnly :
      (later : ℕ) (key tag : String) (o : Op V) (b : InMemoryCacheBackend V)
      → is_apart later key tag o ≡ true
      → IsTaggedOnly key tag b
      → IsTaggedOnly key tag (step o b)
  unfolding is_apart tags_without
  step-IsTaggedOnly later key tag (do_lookup now k) b w only t other =
      untagged-step key t (do_lookup now k) b (ground arith) (only t other)
  step-IsTaggedOnly later key tag (do_store now k value ttl tags) b w only t other =
      untagged-step key t (do_store now k value ttl tags) b (ground (arith, w)) (only t other)
  step-IsTaggedOnly later key tag (do_delete k) b w only t other =
      untagged-step key t (do_delete k) b (ground arith) (only t other)
  step-IsTaggedOnly later key tag (do_invalidate t') b w only t other =
      untagged-step key t (do_invalidate t') b (ground arith) (only t other)
  step-IsTaggedOnly later key tag do_clear b w only t other = ground (arith, w)

  run-Serves :
      (later : ℕ) (key tag : String) (entry : CacheEntry V) (os : List (Op V))
      (b : InMemoryCacheBackend V)
      → All (λ o. is_apart later key tag o ≡ true) os
      → IsTaggedOnly key tag b
      → Serves later key entry b
      → Serves later key entry (run os b)
  unfolding run
  run-Serves later key tag entry [] b w only h = h
  run-Serves later key tag entry (o ∷ os) b w only h =
      run-Serves later key tag entry os (step o b) w.1
        (step-IsTaggedOnly later key tag o b w.0 only)
        (step-Serves later key tag entry o b w.0 only h)

  lookup-served :
      (later : ℕ) (key : String) (entry : CacheEntry V) (b : InMemoryCacheBackend V)
      → Serves later key entry b
      → (lookup later key b).0 ≡ (if expired later entry then none else some entry.value)
  unfolding lookup
  lookup-served later key entry b (inl there) = ground (arith, there)
  lookup-served later key entry b (inr (gone, old)) = ground (arith, gone, old)

  get_or_compute-miss :
      (now finished ttl : ℕ) (key tag : String) (value : V)
      (factory : InMemoryCacheBackend V → Option V × InMemoryCacheBackend V)
      (b b' : InMemoryCacheBackend V)
      → (lookup now key b).0 ≡ none
      → factory (lookup now key b).1 ≡ (some value, b')
      → (get_or_compute now finished key tag ttl factory b).1
        ≡ store_value finished key value (some ttl) (tag ∷ []) b'
  unfolding get_or_compute store_result
  get_or_compute-miss now finished ttl key tag value factory b b' m f =
      ground (arith, m, ap (store_result finished key tag ttl) f)

  get_or_compute-served :
      (later done ttl ttl' created : ℕ) (key tag' : String) (value : V)
      (factory' : InMemoryCacheBackend V → Option V × InMemoryCacheBackend V)
      (b : InMemoryCacheBackend V)
      → (lookup later key b).0 ≡ (if ltb ttl (later - created) then none else some value)
      → (get_or_compute later done key tag' ttl' factory' b).0
        ≡ (if ltb ttl (later - created) then (factory' (lookup later key b).1).0 else some value)
  unfolding get_or_compute
  get_or_compute-served later done ttl ttl' created key tag' value factory' b h =
      elim (Bool-cases (ltb ttl (later - created))) [
        | inl old ↦ ground (
          arith,
          h,
          old,
          result-store_result done key tag' ttl' (factory' (lookup later key b).1),
        )
        | inr fresh ↦ ground (arith, h, fresh)
      ]

  Serves-store_value :
      (later finished ttl : ℕ) (key tag : String) (value : V) (b : InMemoryCacheBackend V)
      → Serves later key
          (record { value = value; created_at = finished; ttl = some ttl })
          (store_value finished key value (some ttl) (tag ∷ []) b)
  unfolding store_value
  Serves-store_value later finished ttl key tag value b =
      let entry : CacheEntry V = record { value = value; created_at = finished; ttl = some ttl } in
      inl (ground (arith, get-put b.store key key entry, eq_refl key))

  IsTaggedOnly-store_value :
      (finished ttl : ℕ) (key tag : String) (value : V) (b : InMemoryCacheBackend V)
      → IsTaggedOnly key tag b
      → IsTaggedOnly key tag (store_value finished key value (some ttl) (tag ∷ []) b)
  unfolding step tags_without contains
  IsTaggedOnly-store_value finished ttl key tag value b only t other =
      untagged-step key t (do_store finished key value (some ttl) (tag ∷ [])) b
        (ground (arith, other, string_eq.beq_iff tag t, string_eq.beq_iff t tag)) (only t other)

  -- A result that the factory gave on a miss is served again, without a new computation, up to the end of its time to
  -- live from when the factory was done, and computed anew afterwards. In between, other tasks may look up any key,
  -- write and delete other keys, and invalidate other tags, but not write, delete or invalidate the key or clear the
  -- cache. When the factory is done the key stands under no other tag, and what was done to the cache while it ran
  -- does not matter otherwise.
  pub cached_for_ttl :
      (now finished later done ttl ttl' : ℕ) (key tag tag' : String) (value : V)
      (factory factory' : InMemoryCacheBackend V → Option V × InMemoryCacheBackend V)
      (b b' : InMemoryCacheBackend V) (os : List (Op V))
      → (lookup now key b).0 ≡ none
      → factory (lookup now key b).1 ≡ (some value, b')
      → IsTaggedOnly key tag b'
      → All (λ o. is_apart later key tag o ≡ true) os
      → let after = run os (get_or_compute now finished key tag ttl factory b).1 in
        (get_or_compute later done key tag' ttl' factory' after).0 ≡ (
          if ltb ttl (later - finished)
          then (factory' (lookup later key after).1).0
          else some value)
  unfolding expired
  cached_for_ttl now finished later done ttl ttl' key tag tag' value factory factory' b b' os m f
        only quiet =
      let first = store_value finished key value (some ttl) (tag ∷ []) b' in
      let entry : CacheEntry V = record { value = value; created_at = finished; ttl = some ttl } in
      let served = lookup-served later key entry (run os first) (
        run-Serves later key tag entry os first quiet
          (IsTaggedOnly-store_value finished ttl key tag value b' only)
          (Serves-store_value later finished ttl key tag value b')) in
      rw (get_or_compute-miss now finished ttl key tag value factory b b' m f) (
        get_or_compute-served later done ttl ttl' finished key tag' value factory' (run os first)
          served)
