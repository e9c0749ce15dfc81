-- ===== src/Cache/Backend/Refines.antt =====
-- InMemoryCacheBackend of blunder_tutor/cache/backend.py against a cache that has no index: each entry carries its
-- own tags, and an invalidation drops the entries that carry the tag.
use chess_blunder_trainer.Common.{
  ℕ, ◌+◌, ltb, String, ◌≡◌, refl, ap, ◌∙◌, Bool, true, false, Option, none, some, List, [], ◌∷◌,
  ◌==◌, ◌&&◌, if◌then◌else◌, string_eq, contains, arith, All, is_some, Bool-cases, inl, inr,
}
use chess_blunder_trainer.Common.Dict
use chess_blunder_trainer.Common.Dict.{Dict, get-put, get-remove}
use chess_blunder_trainer.Cache.Backend.{
  CacheEntry, InMemoryCacheBackend, new_backend, keys_of, expired, remove_key, lookup, store_value,
  invalidate_tag, clear,
}
use chess_blunder_trainer.Cache.Backend.Stale.{
  Op, do_lookup, do_store, do_delete, do_invalidate, do_clear, step, run, stored, tagged, tags_with,
  tags_without, linked-step, untagged-step, get-drop_keys,
}

-- an entry with its tags
abbrev pub Tagged {ℓ} : Type ℓ → Type ℓ
Tagged V = CacheEntry V × List String

-- the tags that belong to the key, given to it under its name
contains-tags :
    (tags_of : String → List String) (key k tag : String) (tags : List String)
    → tags ≡ tags_of k
    → (k == key) ≡ true
    → contains tags tag ≡ contains (tags_of key) tag
contains-tags tags_of key k tag tags u here =
    ap (λ (ts : List String). contains ts tag) u
    ∙ ap (λ (j : String). contains (tags_of j) tag) ((string_eq.beq_iff k key).0 here)

module _ {ℓ} {V : Type ℓ} where
  abbrev pub carries : String → Option (Tagged V) → Bool
  carries tag none = false
  carries tag (some (entry, tags)) = contains tags tag

  -- the time to live is over
  abbrev pub is_old : ℕ → CacheEntry V → Bool
  is_old now entry = elim entry.ttl [ none ↦ false | some ttl ↦ ltb (entry.created_at + ttl) now ]

  expired-is_old : (now : ℕ) (entry : CacheEntry V) → expired now entry ≡ is_old now entry
  unfolding expired
  expired-is_old now entry = ground arith

  abbrev pub has_expired : ℕ → Option (Tagged V) → Bool
  has_expired now none = false
  has_expired now (some (entry, tags)) = is_old now entry

  -- what the operation makes of what stands under the key
  unfoldable pub reference_at : Op V → String → Option (Tagged V) → Option (Tagged V)
  reference_at (do_lookup now k) key x = if k == key && has_expired now x then none else x
  reference_at (do_store now k value ttl tags) key x =
      if k == key then some (record { value = value; created_at = now; ttl = ttl }, tags) else x
  reference_at (do_delete k) key x = if k == key then none else x
  reference_at (do_invalidate tag) key x = if carries tag x then none else x
  reference_at do_clear key x = none

  unfoldable pub reference_run :
      List (Op V) → (String → Option (Tagged V)) → String → Option (Tagged V)
  reference_run [] cache = cache
  reference_run (o ∷ os) cache = reference_run os (λ key. reference_at o key (cache key))

  abbrev pub reference_lookup : ℕ → Option (Tagged V) → Option V
  reference_lookup now none = none
  reference_lookup now (some (entry, tags)) = if is_old now entry then none else some entry.value

  -- a store gives the key the tags that belong to it
  abbrev pub Uses : (String → List String) → Op V → Type 0
  Uses tags_of (do_store now k value ttl tags) = tags ≡ tags_of k
  Uses tags_of o = Unit

  abbrev entry_of : Option (Tagged V) → Option (CacheEntry V)
  entry_of none = none
  entry_of (some (entry, tags)) = some entry

  -- the backend and the reference have the same entry under the key, and the index has no tag for it but its own, and
  -- all of those while it is stored
  record Agrees (tags_of : String → List String) (b : InMemoryCacheBackend V) (key : String)
      (x : Option (Tagged V)) : Type ℓ where
    pub same : Dict.get b.store key ≡ entry_of x
    pub own : (tag : String) → carries tag x ≡ is_some x && contains (tags_of key) tag
    pub linked :
        (tag : String)
        → contains (tags_of key) tag ≡ true
        → stored key b ≡ true
        → tagged key tag b ≡ true
    pub no_other : (tag : String) → contains (tags_of key) tag ≡ false → tagged key tag b ≡ false

  module _ (tags_of : String → List String) (key : String) where
    tags_with-Uses :
        (o : Op V) (tag : String)
        → Uses tags_of o
        → contains (tags_of key) tag ≡ true
        → tags_with key tag o ≡ true
    unfolding tags_with
    tags_with-Uses (do_lookup now k) tag u h = ground arith
    tags_with-Uses (do_store now k value ttl tags) tag u h = elim (Bool-cases (k == key)) [
      | inl here ↦ ground (arith, h, contains-tags tags_of key k tag tags u here)
      | inr other ↦ ground (arith, other)
    ]
    tags_with-Uses (do_delete k) tag u h = ground arith
    tags_with-Uses (do_invalidate t) tag u h = ground arith
    tags_with-Uses do_clear tag u h = ground arith

    tags_without-Uses :
        (o : Op V) (tag : String)
        → Uses tags_of o
        → contains (tags_of key) tag ≡ false
        → tags_without key tag o ≡ true
    unfolding tags_without
    tags_without-Uses (do_lookup now k) tag u h = ground arith
    tags_without-Uses (do_store now k value ttl tags) tag u h = elim (Bool-cases (k == key)) [
      | inl here ↦ ground (arith, h, contains-tags tags_of key k tag tags u here)
      | inr other ↦ ground (arith, other)
    ]
    tags_without-Uses (do_delete k) tag u h = ground arith
    tags_without-Uses (do_invalidate t) tag u h = ground arith
    tags_without-Uses do_clear tag u h = ground arith

    get-lookup :
        (now : ℕ) (k : String) (b : InMemoryCacheBackend V) (x : Option (Tagged V))
        → Dict.get b.store key ≡ entry_of x
        → Dict.get (lookup now k b).1.store key
          ≡ entry_of (if k == key && has_expired now x then none else x)
    unfolding lookup remove_key
    get-lookup now k b none h = ground (arith, h, get-remove b.store k key)
    get-lookup now k b (some (entry, tags)) h =
        ground
          (arith, h, get-remove b.store k key, string_eq.beq_iff k key, expired-is_old now entry)

    same-step :
        (o : Op V) (b : InMemoryCacheBackend V) (x : Option (Tagged V))
        → Agrees tags_of b key x
        → Dict.get (step o b).store key ≡ entry_of (reference_at o key x)
    unfolding step reference_at store_value remove_key invalidate_tag clear Dict.get
    same-step (do_lookup now k) b x a = get-lookup now k b x a.same
    same-step (do_store now k value ttl tags) b x a =
        let entry : CacheEntry V = record { value = value; created_at = now; ttl = ttl } in
        ground (arith, a.same, get-put b.store k key entry)
    same-step (do_delete k) b x a = ground (arith, a.same, get-remove b.store k key)
    same-step (do_invalidate tag) b none a =
        ground (arith, a.same, get-drop_keys (keys_of b.tag_index tag) b.store key)
    same-step (do_invalidate tag) b (some (entry, tags)) a = ground (
      arith,
      a.same,
      a.own tag,
      a.linked tag,
      a.no_other tag,
      get-drop_keys (keys_of b.tag_index tag) b.store key,
    )
    same-step do_clear b x a = refl

    own-reference_at :
        (o : Op V) (x : Option (Tagged V))
        → Uses tags_of o
        → ((tag : String) → carries tag x ≡ is_some x && contains (tags_of key) tag)
        → (tag : String)
        → carries tag (reference_at o key x)
          ≡ is_some (reference_at o key x) && contains (tags_of key) tag
    unfolding reference_at
    own-reference_at (do_lookup now k) x u own tag = ground (arith, own tag)
    own-reference_at (do_store now k value ttl tags) x u own tag = elim (Bool-cases (k == key)) [
      | inl here ↦ ground (arith, here, contains-tags tags_of key k tag tags u here)
      | inr other ↦ ground (arith, other, own tag)
    ]
    own-reference_at (do_delete k) x u own tag = ground (arith, own tag)
    own-reference_at (do_invalidate t) x u own tag = ground (arith, own tag)
    own-reference_at do_clear x u own tag = refl

    step-Agrees :
        (o : Op V) (b : InMemoryCacheBackend V) (x : Option (Tagged V))
        → Uses tags_of o
        → Agrees tags_of b key x
        → Agrees tags_of (step o b) key (reference_at o key x)
    step-Agrees o b x u a = record {
      same = same-step o b x a;
      own = own-reference_at o x u a.own;
      linked = λ tag h. linked-step key tag o b (tags_with-Uses o tag u h) (a.linked tag h);
      no_other =
          λ tag h. untagged-step key tag o b (tags_without-Uses o tag u h) (a.no_other tag h);
    }

    run-Agrees :
        (os : List (Op V)) (b : InMemoryCacheBackend V) (cache : String → Option (Tagged V))
        → All (Uses tags_of) os
        → Agrees tags_of b key (cache key)
        → Agrees tags_of (run os b) key (reference_run os cache key)
    unfolding run reference_run
    run-Agrees [] b cache u a = a
    run-Agrees (o ∷ os) b cache u a =
        run-Agrees os (step o b) (λ k. reference_at o k (cache k)) u.1
          (step-Agrees o b (cache key) u.0 a)

  lookup-Agrees :
      (tags_of : String → List String) (now : ℕ) (b : InMemoryCacheBackend V) (key : String)
      (x : Option (Tagged V))
      → Agrees tags_of b key x
      → (lookup now key b).0 ≡ reference_lookup now x
  unfolding lookup
  lookup-Agrees tags_of now b key none a = ground (arith, a.same)
  lookup-Agrees tags_of now b key (some (entry, tags)) a =
      ground (arith, a.same, expired-is_old now entry)

  -- Let every store of a key give it the same tags. After any operations from a new backend, a lookup of any key gives
  -- at every time what it gives of a cache with no index, in which an entry carries its tags and an invalidation drops
  -- exactly the entries that carry the tag.
  pub backend_refines_reference :
      (tags_of : String → List String) (os : List (Op V)) (now : ℕ) (key : String)
      → All (Uses tags_of) os
      → (lookup now key (run os new_backend)).0
        ≡ reference_lookup now (reference_run os (λ k. none) key)
  unfolding keys_of Dict.get contains
  backend_refines_reference tags_of os now key u =
      lookup-Agrees tags_of now (run os new_backend) key (reference_run os (λ k. none) key) (
        run-Agrees tags_of key os new_backend (λ k. none) u
          (record {
            same = refl;
            own = λ tag. refl;
            linked = λ tag h there. cc;
            no_other = λ tag h. refl;
          }))
