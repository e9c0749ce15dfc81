-- ===== src/Cache/Backend.antt =====
-- InMemoryCacheBackend of blunder_tutor/cache/backend.py. The clock is an argument, in ticks, and does not run back.
pub mod Stale
pub mod Refines
use chess_blunder_trainer.Common.{
  ℕ, ◌+◌, ◌-◌, String, Bool, true, false, Option, none, some, List, [], ◌∷◌, ◌==◌, if◌then◌else◌,
  ltb, string_eq, contains, add_key, discard, is_some,
}
use chess_blunder_trainer.Common.Dict
use chess_blunder_trainer.Common.Dict.{Dict}

pub record CacheEntry {ℓ} (V : Type ℓ) : Type ℓ where
  pub value : V
  pub created_at : ℕ
  pub ttl : Option ℕ

-- the tag index holds a set of keys per tag
pub record InMemoryCacheBackend {ℓ} (V : Type ℓ) : Type ℓ where
  pub store : Dict String (CacheEntry V)
  pub tag_index : Dict String (List String)

abbrev pub new_backend {ℓ} : {V : Type ℓ} → InMemoryCacheBackend V
new_backend = record { store = []; tag_index = [] }

unfoldable pub discard_all : String → Dict String (List String) → Dict String (List String)
discard_all key [] = []
discard_all key ((tag, tag_keys) ∷ index) = (tag, discard key tag_keys) ∷ discard_all key index

-- `self._tag_index.setdefault(tag, set()).add(key)`
unfoldable pub keys_of : Dict String (List String) → String → List String
keys_of index tag = elim (Dict.get index tag) [ none ↦ [] | some tag_keys ↦ tag_keys ]

unfoldable pub add_tags :
    List String → String → Dict String (List String) → Dict String (List String)
add_tags [] key index = index
add_tags (tag ∷ tags) key index =
    add_tags tags key (Dict.put index tag (add_key key (keys_of index tag)))

unfoldable pub drop_keys {ℓ} : {V : Type ℓ} → List String → Dict String V → Dict String V
drop_keys [] d = d
drop_keys (key ∷ rest) d = drop_keys rest (Dict.remove d key)

module _ {ℓ} {V : Type ℓ} where
  unfoldable pub expired : ℕ → CacheEntry V → Bool
  expired now entry = elim entry.ttl [ none ↦ false | some ttl ↦ ltb ttl (now - entry.created_at) ]

  unfoldable pub remove_key : String → InMemoryCacheBackend V → InMemoryCacheBackend V
  remove_key key b = record {
    store = Dict.remove b.store key;
    tag_index = discard_all key b.tag_index;
  }

  unfoldable pub lookup : ℕ → String → InMemoryCacheBackend V → Option V × InMemoryCacheBackend V
  lookup now key b = elim (Dict.get b.store key) [
    | none ↦ (none, b)
    | some entry ↦ if expired now entry then (none, remove_key key b) else (some entry.value, b)
  ]

  unfoldable pub store_value :
      ℕ → String → V → Option ℕ → List String → InMemoryCacheBackend V → InMemoryCacheBackend V
  store_value now key value ttl tags b = record {
    store = Dict.put b.store key (record { value = value; created_at = now; ttl = ttl });
    tag_index =
        add_tags tags key
          (if is_some (Dict.get b.store key) then discard_all key b.tag_index else b.tag_index);
  }

  unfoldable pub invalidate_tag : String → InMemoryCacheBackend V → InMemoryCacheBackend V
  invalidate_tag tag b = record {
    store = drop_keys (keys_of b.tag_index tag) b.store;
    tag_index = Dict.remove b.tag_index tag;
  }

  unfoldable pub clear : InMemoryCacheBackend V → InMemoryCacheBackend V
  clear b = record { store = []; tag_index = [] }
