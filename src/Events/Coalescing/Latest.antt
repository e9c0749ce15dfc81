-- ===== src/Events/Coalescing/Latest.antt =====
-- The latest event of a key, in a list and in the pending dictionary of blunder_tutor/events/coalescing.py.
use chess_blunder_trainer.Common.{
  ◌≡◌, refl, false, Option, none, some, List, [], ◌∷◌, ◌++◌, ◌==◌, ◌||◌, if◌then◌else◌, arith, All,
  Unique, contains, Bool-cases, inl, inr,
}
use chess_blunder_trainer.Common.Dict
use chess_blunder_trainer.Common.Dict.{Dict, get-put, contains-keys}
use chess_blunder_trainer.Events.Types.{Event}
use chess_blunder_trainer.Events.Coalescing.{Key, key_eq, coalesce_key}

unfoldable pub or_else : Option Event → Option Event → Option Event
or_else (some e) o = some e
or_else none o = o

-- the last event of the list whose key is `k`
unfoldable pub latest : Key → List Event → Option Event
latest k [] = none
latest k (e ∷ es) = or_else (latest k es) (if coalesce_key e == k then some e else none)

pub latest-append :
    (k : Key) (xs ys : List Event) → latest k (xs ++ ys) ≡ or_else (latest k ys) (latest k xs)
unfolding latest or_else
latest-append k [] ys = ground arith
latest-append k (x ∷ xs) ys = ground (arith, latest-append k xs ys)

-- Each pending event stands under its own key, once.
pub record WellKeyed (d : Dict Key Event) : Type 0 where
  pub unique : Unique (Dict.keys d)
  pub keyed : All (λ kv. coalesce_key kv.1 ≡ kv.0) d

keys-put :
    (d : Dict Key Event) (k j : Key) (e : Event)
    → contains (Dict.keys (Dict.put d k e)) j ≡ contains (Dict.keys d) j || k == j
keys-put d k j e =
    ground (arith, contains-keys d j, contains-keys (Dict.put d k e) j, get-put d k j e)

Unique-put :
    (d : Dict Key Event) (k : Key) (e : Event)
    → Unique (Dict.keys d)
    → Unique (Dict.keys (Dict.put d k e))
unfolding Dict.put contains
Unique-put [] k e u = (refl, tt)
Unique-put ((j, v) ∷ d) k e u = elim (Bool-cases (j == k)) [
  | inl same ↦ rw (same, Dict.put) u
  | inr other ↦
      rw (other, Dict.put)
        (
          ground (arith, u, keys-put d k j e, key_eq.beq_iff j k, key_eq.beq_iff k j),
          Unique-put d k e u.1,
        )
]

keyed-put :
    (d : Dict Key Event) (k : Key) (e : Event)
    → coalesce_key e ≡ k
    → All (λ kv. coalesce_key kv.1 ≡ kv.0) d
    → All (λ kv. coalesce_key kv.1 ≡ kv.0) (Dict.put d k e)
unfolding Dict.put
keyed-put [] k e p h = (p, tt)
keyed-put ((j, v) ∷ d) k e p h = elim (Bool-cases (j == k)) [
  | inl same ↦ rw (same, Dict.put) (ground (arith, p, same, key_eq.beq_iff j k), h.1)
  | inr other ↦ rw (other, Dict.put) (h.0, keyed-put d k e p h.1)
]

pub WellKeyed-put :
    (d : Dict Key Event) (e : Event) → WellKeyed d → WellKeyed (Dict.put d (coalesce_key e) e)
WellKeyed-put d e h = record {
  unique = Unique-put d (coalesce_key e) e h.unique;
  keyed = keyed-put d (coalesce_key e) e refl h.keyed;
}

or_else-none : (o : Option Event) → or_else o none ≡ o
unfolding or_else
or_else-none none = refl
or_else-none (some e) = refl

get-absent :
    (d : Dict Key Event) (j k : Key)
    → contains (Dict.keys d) j ≡ false
    → j ≡ k
    → Dict.get d k ≡ none
get-absent d j k u p = ground (arith, u, p, contains-keys d j)

latest-values_parts :
    (d : Dict Key Event) (k : Key)
    → Unique (Dict.keys d)
    → All (λ kv. coalesce_key kv.1 ≡ kv.0) d
    → latest k (Dict.values d) ≡ Dict.get d k
unfolding latest Dict.get or_else
latest-values_parts [] k u h = refl
latest-values_parts ((j, v) ∷ d) k u h = elim (Bool-cases (j == k)) [
  | inl same ↦
      rw
        (
          latest-values_parts d k u.1 h.1,
          h.0,
          same,
          get-absent d j k u.0 ((key_eq.beq_iff j k).0 same),
        )
        refl
  | inr other ↦ rw (latest-values_parts d k u.1 h.1, h.0, other) (or_else-none (Dict.get d k))
]

-- The events that a flush takes from the dictionary are the latest of their keys.
pub latest-values :
    (d : Dict Key Event) (k : Key) → WellKeyed d → latest k (Dict.values d) ≡ Dict.get d k
latest-values d k h = latest-values_parts d k h.unique h.keyed
