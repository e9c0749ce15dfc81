-- ===== src/Cache/Backend/Stale.antt =====
-- What an invalidation of blunder_tutor/cache/backend.py drops, after any operations of the backend.
use chess_blunder_trainer.Common.{
  ℕ, String, ◌≡◌, refl, Bool, true, false, Option, none, List, [], ◌∷◌, ◌==◌, ◌||◌, ◌&&◌, not,
  if◌then◌else◌, string_eq, contains, arith, All, add_key, is_some, contains-add_key,
  contains-discard, ◌⊎◌, Bool-cases, Option-cases, inl, inr,
}
use mathlib.Core.Path.{subst}
use chess_blunder_trainer.Common.Dict
use chess_blunder_trainer.Common.Dict.{Dict, get-put, get-remove}
use chess_blunder_trainer.Cache.Backend.{
  InMemoryCacheBackend, new_backend, discard_all, keys_of, add_tags, drop_keys, expired, remove_key,
  lookup, store_value, invalidate_tag, clear,
}

contains-discard_all :
    (index : Dict String (List String)) (key j tag : String)
    → contains (keys_of (discard_all key index) tag) j
      ≡ contains (keys_of index tag) j && not (key == j)
unfolding discard_all keys_of Dict.get contains
contains-discard_all [] key j tag = refl
contains-discard_all ((t, ks) ∷ index) key j tag =
    ground (arith, contains-discard_all index key j tag, contains-discard key j ks)

contains-put_key :
    (index : Dict String (List String)) (key j tag t : String)
    → contains (keys_of (Dict.put index t (add_key key (keys_of index t))) tag) j
      ≡ contains (keys_of index tag) j || ((t == tag) && (key == j))
contains-put_key index key j tag t =
    unfold keys_of in
    ground (
      arith,
      get-put index t tag (add_key key (keys_of index t)),
      contains-add_key key j (keys_of index t),
      string_eq.beq_iff t tag,
    )

contains-add_tags :
    (tags : List String) (index : Dict String (List String)) (key j tag : String)
    → contains (keys_of (add_tags tags key index) tag) j
      ≡ contains (keys_of index tag) j || (contains tags tag && (key == j))
unfolding add_tags contains
contains-add_tags [] index key j tag = ground arith
contains-add_tags (t ∷ tags) index key j tag = ground (
  arith,
  contains-add_tags tags (Dict.put index t (add_key key (keys_of index t))) key j tag,
  contains-put_key index key j tag t,
)

pub get-drop_keys {ℓ} :
    {V : Type ℓ} (ks : List String) (d : Dict String V) (k : String)
    → Dict.get (drop_keys ks d) k ≡ (if contains ks k then none else Dict.get d k)
unfolding drop_keys contains
get-drop_keys [] d k = refl
get-drop_keys (j ∷ ks) d k = ground (arith, get-drop_keys ks (Dict.remove d j) k, get-remove d j k)

contains-remove_tag :
    (index : Dict String (List String)) (t tag j : String)
    → contains (keys_of (Dict.remove index t) tag) j
      ≡ contains (keys_of index tag) j && not (t == tag)
unfolding keys_of contains
contains-remove_tag index t tag j = ground (arith, get-remove index t tag)

pub data Op {ℓ} (V : Type ℓ) : Type ℓ where
  do_lookup : ℕ → String → Op V
  do_store : ℕ → String → V → Option ℕ → List String → Op V
  do_delete : String → Op V
  do_invalidate : String → Op V
  do_clear : Op V

module _ {ℓ} {V : Type ℓ} where
  unfoldable pub step : Op V → InMemoryCacheBackend V → InMemoryCacheBackend V
  step (do_lookup now key) b = (lookup now key b).1
  step (do_store now key value ttl tags) b = store_value now key value ttl tags b
  step (do_delete key) b = remove_key key b
  step (do_invalidate tag) b = invalidate_tag tag b
  step do_clear b = clear b

  unfoldable pub run : List (Op V) → InMemoryCacheBackend V → InMemoryCacheBackend V
  run [] b = b
  run (o ∷ os) b = run os (step o b)

  -- the operation does not store the key, or stores it with the tag
  unfoldable pub tags_with : String → String → Op V → Bool
  tags_with key tag (do_store now k value ttl tags) = not (k == key) || contains tags tag
  tags_with key tag _ = true

  -- the operation does not store the key, or stores it without the tag
  unfoldable pub tags_without : String → String → Op V → Bool
  tags_without key tag (do_store now k value ttl tags) = not (k == key) || not (contains tags tag)
  tags_without key tag _ = true

  unfoldable pub stores : String → Op V → Bool
  stores key (do_store now k value ttl tags) = k == key
  stores key _ = false

  -- the key is stored, and it is in the set of the tag
  abbrev pub stored : String → InMemoryCacheBackend V → Bool
  stored key b = is_some (Dict.get b.store key)

  abbrev pub tagged : String → String → InMemoryCacheBackend V → Bool
  tagged key tag b = contains (keys_of b.tag_index tag) key

  stored-remove_key :
      (key k : String) (b : InMemoryCacheBackend V)
      → stored key (remove_key k b) ≡ stored key b && not (k == key)
  unfolding remove_key
  stored-remove_key key k b = ground (arith, get-remove b.store k key)

  tagged-remove_key :
      (key tag k : String) (b : InMemoryCacheBackend V)
      → tagged key tag (remove_key k b) ≡ tagged key tag b && not (k == key)
  unfolding remove_key
  tagged-remove_key key tag k b = contains-discard_all b.tag_index k key tag

  stored-store_value :
      (key k : String) (now : ℕ) (value : V) (ttl : Option ℕ) (tags : List String)
      (b : InMemoryCacheBackend V)
      → stored key (store_value now k value ttl tags b) ≡ stored key b || (k == key)
  unfolding store_value
  stored-store_value key k now value ttl tags b =
      ground (arith, get-put b.store k key (record { value = value; created_at = now; ttl = ttl }))

  tagged-store_value :
      (key tag k : String) (now : ℕ) (value : V) (ttl : Option ℕ) (tags : List String)
      (b : InMemoryCacheBackend V)
      → tagged key tag (store_value now k value ttl tags b)
        ≡ (tagged key tag b && not (stored k b && (k == key))) || (contains tags tag && (k == key))
  unfolding store_value
  tagged-store_value key tag k now value ttl tags b = ground (
    arith,
    contains-add_tags tags (discard_all k b.tag_index) k key tag,
    contains-add_tags tags b.tag_index k key tag,
    contains-discard_all b.tag_index k key tag,
  )

  stored-invalidate_tag :
      (key tag : String) (b : InMemoryCacheBackend V)
      → stored key (invalidate_tag tag b) ≡ stored key b && not (tagged key tag b)
  unfolding invalidate_tag
  stored-invalidate_tag key tag b =
      ground (arith, get-drop_keys (keys_of b.tag_index tag) b.store key)

  tagged-invalidate_tag :
      (key tag t : String) (b : InMemoryCacheBackend V)
      → tagged key tag (invalidate_tag t b) ≡ tagged key tag b && not (t == tag)
  unfolding invalidate_tag
  tagged-invalidate_tag key tag t b = contains-remove_tag b.tag_index t tag key

  -- a lookup leaves the backend alone, or removes the key
  lookup-cases :
      (now : ℕ) (k : String) (b : InMemoryCacheBackend V)
      → ((lookup now k b).1 ≡ b) ⊎ ((lookup now k b).1 ≡ remove_key k b)
  unfolding lookup
  lookup-cases now k b = elim (Option-cases (Dict.get b.store k)) [
    | inl p ↦ inl (rw (p, lookup) refl)
    | inr (entry, p) ↦ elim (Bool-cases (expired now entry)) [
      | inl old ↦ inr (rw (p, lookup, old) refl)
      | inr new ↦ inl (rw (p, lookup, new) refl)
    ]
  ]

  -- a stored key is in the set of the tag that all its stores have
  pub linked-step :
      (key tag : String) (o : Op V) (b : InMemoryCacheBackend V)
      → tags_with key tag o ≡ true
      → (stored key b ≡ true → tagged key tag b ≡ true)
      → stored key (step o b) ≡ true
      → tagged key tag (step o b) ≡ true
  unfolding step tags_with
  linked-step key tag (do_lookup now k) b w h s = elim (lookup-cases now k b) [
    | inl p ↦ rw p (h (subst (λ x. stored key x ≡ true) p s))
    | inr p ↦
        let kept = subst (λ x. stored key x ≡ true) p s in
        rw p (ground (arith, h, kept, stored-remove_key key k b, tagged-remove_key key tag k b))
  ]
  linked-step key tag (do_store now k value ttl tags) b w h s = ground (
    arith,
    w,
    h,
    s,
    stored-store_value key k now value ttl tags b,
    tagged-store_value key tag k now value ttl tags b,
    string_eq.beq_iff k key,
  )
  linked-step key tag (do_delete k) b w h s =
      ground (arith, h, s, stored-remove_key key k b, tagged-remove_key key tag k b)
  linked-step key tag (do_invalidate t) b w h s = ground (
    arith,
    h,
    s,
    stored-invalidate_tag key t b,
    tagged-invalidate_tag key tag t b,
    string_eq.beq_iff t tag,
  )
  linked-step key tag do_clear b w h s = unfold clear Dict.get in cc s

  gone-step :
      (key : String) (o : Op V) (b : InMemoryCacheBackend V)
      → stores key o ≡ false
      → stored key b ≡ false
      → stored key (step o b) ≡ false
  unfolding step stores
  gone-step key (do_lookup now k) b w h = elim (lookup-cases now k b) [
    | inl p ↦ rw p h
    | inr p ↦ rw p (ground (arith, h, stored-remove_key key k b))
  ]
  gone-step key (do_store now k value ttl tags) b w h =
      ground (arith, w, h, stored-store_value key k now value ttl tags b)
  gone-step key (do_delete k) b w h = ground (arith, h, stored-remove_key key k b)
  gone-step key (do_invalidate t) b w h = ground (arith, h, stored-invalidate_tag key t b)
  gone-step key do_clear b w h = unfold clear Dict.get in refl

  pub untagged-step :
      (key tag : String) (o : Op V) (b : InMemoryCacheBackend V)
      → tags_without key tag o ≡ true
      → tagged key tag b ≡ false
      → tagged key tag (step o b) ≡ false
  unfolding step tags_without
  untagged-step key tag (do_lookup now k) b w h = elim (lookup-cases now k b) [
    | inl p ↦ rw p h
    | inr p ↦ rw p (ground (arith, h, tagged-remove_key key tag k b))
  ]
  untagged-step key tag (do_store now k value ttl tags) b w h =
      ground (arith, w, h, tagged-store_value key tag k now value ttl tags b)
  untagged-step key tag (do_delete k) b w h = ground (arith, h, tagged-remove_key key tag k b)
  untagged-step key tag (do_invalidate t) b w h =
      ground (arith, h, tagged-invalidate_tag key tag t b)
  untagged-step key tag do_clear b w h = unfold clear keys_of Dict.get contains in refl

  linked-run :
      (key tag : String) (os : List (Op V)) (b : InMemoryCacheBackend V)
      → All (λ o. tags_with key tag o ≡ true) os
      → (stored key b ≡ true → tagged key tag b ≡ true)
      → stored key (run os b) ≡ true
      → tagged key tag (run os b) ≡ true
  unfolding run
  linked-run key tag [] b w h = h
  linked-run key tag (o ∷ os) b w h =
      linked-run key tag os (step o b) w.1 (linked-step key tag o b w.0 h)

  gone-run :
      (key : String) (os : List (Op V)) (b : InMemoryCacheBackend V)
      → All (λ o. stores key o ≡ false) os
      → stored key b ≡ false
      → stored key (run os b) ≡ false
  unfolding run
  gone-run key [] b w h = h
  gone-run key (o ∷ os) b w h = gone-run key os (step o b) w.1 (gone-step key o b w.0 h)

  untagged-run :
      (key tag : String) (os : List (Op V)) (b : InMemoryCacheBackend V)
      → All (λ o. tags_without key tag o ≡ true) os
      → tagged key tag b ≡ false
      → tagged key tag (run os b) ≡ false
  unfolding run
  untagged-run key tag [] b w h = h
  untagged-run key tag (o ∷ os) b w h =
      untagged-run key tag os (step o b) w.1 (untagged-step key tag o b w.0 h)

  miss :
      (now : ℕ) (key : String) (b : InMemoryCacheBackend V)
      → stored key b ≡ false
      → (lookup now key b).0 ≡ none
  unfolding lookup
  miss now key b h = ground (arith, h)

  -- Let every store of a key carry a tag. After any operations, an invalidation of the tag, and any
  -- operations that do not store the key, a lookup of the key misses at every time.
  pub invalidated_is_gone :
      (before after : List (Op V)) (key tag : String) (now : ℕ)
      → All (λ o. tags_with key tag o ≡ true) before
      → All (λ o. stores key o ≡ false) after
      → (lookup now key (run after (invalidate_tag tag (run before new_backend)))).0 ≡ none
  invalidated_is_gone before after key tag now w quiet =
      let b = run before new_backend in
      miss now key (run after (invalidate_tag tag b)) (
        gone-run key after (invalidate_tag tag b) quiet (
          ground (
            arith,
            linked-run key tag before new_backend w (λ s. unfold Dict.get in cc s),
            stored-invalidate_tag key tag b,
          )))

  -- Let no store of a key carry a tag. After any operations, an invalidation of the tag leaves what a
  -- lookup of the key gives, at every time.
  pub other_tags_stay :
      (before : List (Op V)) (key tag : String) (now : ℕ)
      → All (λ o. tags_without key tag o ≡ true) before
      → (lookup now key (invalidate_tag tag (run before new_backend))).0
        ≡ (lookup now key (run before new_backend)).0
  unfolding lookup invalidate_tag
  other_tags_stay before key tag now w =
      let b = run before new_backend in
      ground (
        arith,
        get-drop_keys (keys_of b.tag_index tag) b.store key,
        untagged-run key tag before new_backend w (unfold keys_of Dict.get contains in refl),
      )
