-- ===== src/Traps/Matched.antt =====
-- The matches of a game, against a direct search of its positions.
use chess_blunder_trainer.Common.{
  ℕ, ◌+◌, ◌≡◌, refl, ap, sym, ◌∙◌, String, Bool, true, false, Option, none, some, List, [], ◌∷◌,
  ◌==◌, ◌&&◌, ◌||◌, if◌then◌else◌, nat_eq, string_eq, is_some, contains, add_key, contains-add_key,
  arith, Bool-cases, Option-cases, inl, inr,
}
use chess_blunder_trainer.Common.Search.{or_else}
use chess_blunder_trainer.Common.Dict
use chess_blunder_trainer.Common.Dict.{Dict, keys, get-put, contains-keys}
use chess_blunder_trainer.Traps.{
  TrapPosition, TrapDefinition, BoardReader, list_at, new_database, put_new, enter_each, is_san,
  trigger_each, scan_position, scan_moves, with_keys, matched_ids,
}
use chess_blunder_trainer.Traps.Lookup.{
  any, is_entry_of, is_trigger_of, enters, triggers, lookups-new_database,
}

or_else-none : (o : Option ℕ) → or_else o none ≡ o
or_else-none none = refl
or_else-none (some a) = refl

get-put_new :
    (key id : String) (value : ℕ) (d : Dict String ℕ)
    → Dict.get (put_new key value d) id
      ≡ or_else (Dict.get d id) (if key == id then some value else none)
get-put_new key id value d =
    let at_id =
      λ (same : (key == id) ≡ true). ap (λ k. Dict.get d k) ((string_eq.beq_iff key id).0 same) in
    elim (Option-cases (Dict.get d key)) [
      | inl absent ↦ elim (Bool-cases (key == id)) [
        | inl same ↦
            rw (ap is_some absent, get-put d key id value, same, sym (at_id same) ∙ absent) refl
        | inr other ↦
            rw (ap is_some absent, get-put d key id value, other)
              (sym (or_else-none (Dict.get d id)))
      ]
      | inr (old, there) ↦ elim (Bool-cases (key == id)) [
        | inl same ↦ rw (ap is_some there, same, sym (at_id same) ∙ there) refl
        | inr other ↦ rw (ap is_some there, other) (sym (or_else-none (Dict.get d id)))
      ]
    ]

-- a first finding stays
kept_first :
    (o : Option ℕ) (b c : Bool) (v : ℕ)
    → or_else (or_else o (if b then some v else none)) (if c then some v else none)
      ≡ or_else o (if b || c then some v else none)
kept_first none true c v = refl
kept_first none false c v = refl
kept_first (some a) b c v = refl

get-enter_each :
    (id : String) (traps : List TrapDefinition) (ply : ℕ) (d : Dict String ℕ)
    → Dict.get (enter_each traps ply d) id
      ≡ or_else (Dict.get d id) (if any (is_entry_of id) traps then some ply else none)
unfolding enter_each
get-enter_each id [] ply d = sym (or_else-none (Dict.get d id))
get-enter_each id (trap ∷ traps) ply d =
    get-enter_each id traps ply (put_new trap.id ply d)
    ∙ ap (λ o. or_else o (if any (is_entry_of id) traps then some ply else none))
        (get-put_new trap.id id ply d)
    ∙ kept_first (Dict.get d id) (trap.id == id) (any (is_entry_of id) traps) ply

and-true : (b : Bool) → b ≡ b && true
and-true true = refl
and-true false = refl

and-false : (b : Bool) → false ≡ b && false
and-false true = refl
and-false false = refl

get-triggered :
    (b : Bool) (key id : String) (value : ℕ) (d : Dict String ℕ)
    → Dict.get (if b then put_new key value d else d) id
      ≡ or_else (Dict.get d id) (if key == id && b then some value else none)
get-triggered true key id value d =
    get-put_new key id value d
    ∙ ap (λ b. or_else (Dict.get d id) (if b then some value else none)) (and-true (key == id))
get-triggered false key id value d =
    sym (or_else-none (Dict.get d id))
    ∙ ap (λ b. or_else (Dict.get d id) (if b then some value else none)) (and-false (key == id))

get-trigger_each :
    (id san : String) (found : List (TrapDefinition × TrapPosition)) (ply : ℕ) (d : Dict String ℕ)
    → Dict.get (trigger_each san found ply d) id
      ≡ or_else (Dict.get d id) (if any (is_trigger_of id san) found then some (ply + 1) else none)
unfolding trigger_each
get-trigger_each id san [] ply d = sym (or_else-none (Dict.get d id))
get-trigger_each id san ((trap, pos) ∷ rest) ply d =
    let d' = if is_san san pos.mistake_san then put_new trap.id (ply + 1) d else d in
    get-trigger_each id san rest ply d'
    ∙ ap (λ o. or_else o (if any (is_trigger_of id san) rest then some (ply + 1) else none))
        (get-triggered (is_san san pos.mistake_san) trap.id id (ply + 1) d)
    ∙ kept_first (Dict.get d id) (trap.id == id && is_san san pos.mistake_san)
        (any (is_trigger_of id san) rest) (ply + 1)

or_else_assoc : (a b c : Option ℕ) → or_else (or_else a b) c ≡ or_else a (or_else b c)
or_else_assoc none b c = refl
or_else_assoc (some x) b c = refl

module _ {B M : Type 0} (reader : BoardReader B M) (traps : List TrapDefinition) (id : String) where
  -- the first ply at which the game stands on an entry position of the trap, from a board and a ply on
  abbrev pub entry_ply : B → List M → ℕ → Option ℕ
  entry_ply cursor [] ply =
      or_else (if enters id (reader.zobrist_hash cursor) traps then some ply else none) none
  entry_ply cursor (move ∷ moves) ply =
      or_else (if enters id (reader.zobrist_hash cursor) traps then some ply else none)
        (entry_ply (reader.push cursor move) moves (ply + 1))

  -- the first ply after which the trap's mistake has been played from one of its entry positions
  abbrev pub mistake_ply_of : B → List M → ℕ → Option ℕ
  mistake_ply_of cursor [] ply = none
  mistake_ply_of cursor (move ∷ moves) ply =
      or_else
        (if triggers id (reader.zobrist_hash cursor) (reader.san cursor move) traps
          then some (ply + 1)
          else none)
        (mistake_ply_of (reader.push cursor move) moves (ply + 1))

  get-scan_moves :
      (cursor : B) (moves : List M) (ply : ℕ) (found : Dict String ℕ × Dict String ℕ)
      → let after = scan_moves reader (new_database traps) cursor moves ply found in
        (Dict.get after.0 id ≡ or_else (Dict.get found.0 id) (entry_ply cursor moves ply))
        × (Dict.get after.1 id ≡ or_else (Dict.get found.1 id) (mistake_ply_of cursor moves ply))
  unfolding scan_moves scan_position
  get-scan_moves cursor [] ply (entered_at, triggered) =
      let db = new_database traps in
      let h = reader.zobrist_hash cursor in
      (
        get-enter_each id (list_at db.entry_lookup h) ply entered_at
            ∙ ap (λ b. or_else (Dict.get entered_at id) (if b then some ply else none))
                (lookups-new_database id "" h traps).0
            ∙ ap (λ o. or_else (Dict.get entered_at id) o)
                (sym (or_else-none (if enters id h traps then some ply else none))),
        sym (or_else-none (Dict.get triggered id)),
      )
  get-scan_moves cursor (move ∷ moves) ply (entered_at, triggered) =
      let db = new_database traps in
      let h = reader.zobrist_hash cursor in
      let san = reader.san cursor move in
      let next = reader.push cursor move in
      let rest =
        get-scan_moves next moves (ply + 1)
          (scan_position reader db cursor move ply (entered_at, triggered)) in
      let here = lookups-new_database id san h traps in
      let later_entry = entry_ply next moves (ply + 1) in
      let later_mistake = mistake_ply_of next moves (ply + 1) in
      (
        rest.0
            ∙ ap (λ o. or_else o later_entry)
                (get-enter_each id (list_at db.entry_lookup h) ply entered_at
                  ∙ ap (λ b. or_else (Dict.get entered_at id) (if b then some ply else none))
                      here.0)
            ∙ or_else_assoc (Dict.get entered_at id) (if enters id h traps then some ply else none)
                later_entry,
        rest.1
            ∙ ap (λ o. or_else o later_mistake)
                (get-trigger_each id san (list_at db.trigger_lookup h) ply triggered
                  ∙ ap (λ b. or_else (Dict.get triggered id) (if b then some (ply + 1) else none))
                      here.1)
            ∙ or_else_assoc (Dict.get triggered id)
                (if triggers id h san traps then some (ply + 1) else none) later_mistake,
      )

contains-with_keys :
    (ks ids : List String) (id : String)
    → contains (with_keys ks ids) id ≡ contains ids id || contains ks id
unfolding contains
contains-with_keys [] ids id = ground arith
contains-with_keys (k ∷ ks) ids id =
    ground (arith, contains-with_keys ks (add_key k ids) id, contains-add_key k id ids)

module _ {B M : Type 0} (reader : BoardReader B M) (traps : List TrapDefinition) where
  -- The index of a trap database and the single pass over a game find what a direct search finds: a trap is matched
  -- exactly when the game stands on one of its entry positions or plays its mistake from one, and the
  -- ply that is kept for it is the first at which its mistake was played.
  pub matched_ids_exact :
      (root : B) (moves : List M) (id : String)
      → let found = scan_moves reader (new_database traps) root moves 0 ([], []) in
        (contains (matched_ids found) id
          ≡ is_some (entry_ply reader traps id root moves 0)
            || is_some (mistake_ply_of reader traps id root moves 0))
        × (Dict.get found.0 id ≡ entry_ply reader traps id root moves 0)
        × (Dict.get found.1 id ≡ mistake_ply_of reader traps id root moves 0)
  unfolding Dict.get
  matched_ids_exact root moves id =
      let found = scan_moves reader (new_database traps) root moves 0 ([], []) in
      let (entries, mistakes) = get-scan_moves reader traps id root moves 0 ([], []) in
      (
        contains-with_keys (keys found.1) (keys found.0) id
            ∙ ap (λ b. b || contains (keys found.1) id)
                (contains-keys found.0 id ∙ ap is_some entries)
            ∙ ap (λ b. is_some (entry_ply reader traps id root moves 0) || b)
                (contains-keys found.1 id ∙ ap is_some mistakes),
        entries,
        mistakes,
      )
