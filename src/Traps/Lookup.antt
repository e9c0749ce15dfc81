-- ===== src/Traps/Lookup.antt =====
-- What the two lookup tables of a TrapDatabase hold for a position.
use chess_blunder_trainer.Common.{
  ℕ, ◌≡◌, refl, ap, ◌∙◌, String, Bool, false, Option, none, some, List, [], ◌∷◌, ◌++◌, ◌==◌, ◌&&◌,
  ◌||◌, if◌then◌else◌, nat_eq, string_eq, is_some, arith, Bool-cases, Option-cases, inl, inr,
}
use chess_blunder_trainer.Common.Dict
use chess_blunder_trainer.Common.Dict.{Dict, get-put}
use chess_blunder_trainer.Traps.{
  TrapPosition, TrapDefinition, list_at, append_at, append_trigger, TrapDatabase, add_positions,
  add_traps, new_database, is_san,
}

abbrev pub any {ℓ} : {A : Type ℓ} → (A → Bool) → List A → Bool
any p [] = false
any p (x ∷ xs) = p x || any p xs

any-append : {A : Type 0} (p : A → Bool) (xs ys : List A) → any p (xs ++ ys) ≡ any p xs || any p ys
any-append p [] ys = refl
any-append p (x ∷ xs) ys = ground (arith, any-append p xs ys)

any-append_at :
    {A : Type 0} (p : A → Bool) (h k : ℕ) (a : A) (d : Dict ℕ (List A))
    → any p (list_at (append_at h a d) k) ≡ any p (list_at d k) || h == k && p a
any-append_at {A} p h k a d =
    let f = λ (o : Option (List A)). any p (elim o [ none ↦ [] | some xs ↦ xs ]) in
    let there = ap f (get-put d h k (list_at d h ++ a ∷ [])) in
    elim (Bool-cases (h == k)) [
      | inl same ↦
          let same_list = ap (λ (n : ℕ). any p (list_at d n)) ((nat_eq.beq_iff h k).0 same) in
          ground (
            arith,
            there,
            ap f (ap (λ b. if b then some (list_at d h ++ a ∷ []) else Dict.get d k) same),
            same,
            same_list,
            any-append p (list_at d h) (a ∷ []),
          )
      | inr other ↦ ground (
        arith,
        there,
        ap f (ap (λ b. if b then some (list_at d h ++ a ∷ []) else Dict.get d k) other),
        other,
      )
    ]

-- the tests for a trap's id among the entries, and for a trap's id and a move among the triggers
abbrev pub is_entry_of : String → TrapDefinition → Bool
is_entry_of id trap = trap.id == id

abbrev pub is_trigger_of : String → String → TrapDefinition × TrapPosition → Bool
is_trigger_of id san (trap, pos) = trap.id == id && is_san san pos.mistake_san

-- a position of the trap with the hash, and one whose mistake is the move
abbrev pub has_entry : ℕ → TrapDefinition → Bool
has_entry h trap = any (λ (pos : TrapPosition). pos.entry_hash == h) trap.positions

abbrev pub has_trigger : ℕ → String → TrapDefinition → Bool
has_trigger h san trap =
    any (λ (pos : TrapPosition). pos.entry_hash == h && is_san san pos.mistake_san) trap.positions

bools : (a b p q r : Bool) → a ≡ b || p && r → a || q && r ≡ b || (p || q) && r
bools a b p q r h = ground (arith, h)

any-append_trigger :
    (id san : String) (k : ℕ) (trap : TrapDefinition) (pos : TrapPosition)
    (d : Dict ℕ (List (TrapDefinition × TrapPosition)))
    → any (is_trigger_of id san) (list_at (append_trigger trap pos d) k)
      ≡ any (is_trigger_of id san) (list_at d k)
        || (pos.entry_hash == k && is_san san pos.mistake_san) && is_entry_of id trap
any-append_trigger id san k trap pos d =
    let added = any-append_at (is_trigger_of id san) pos.entry_hash k (trap, pos) d in
    elim (Option-cases pos.mistake_san) [
      | inl none_there ↦ rw (ap is_some none_there, ap (is_san san) none_there) (ground arith)
      | inr (mistake, there) ↦ rw (ap is_some there) (ground (arith, added))
    ]

entries-add_positions :
    (id : String) (k : ℕ) (trap : TrapDefinition) (ps : List TrapPosition) (db : TrapDatabase)
    → any (is_entry_of id) (list_at (add_positions trap ps db).entry_lookup k)
      ≡ any (is_entry_of id) (list_at db.entry_lookup k)
        || any (λ (pos : TrapPosition). pos.entry_hash == k) ps && is_entry_of id trap
unfolding add_positions
entries-add_positions id k trap [] db = ground arith
entries-add_positions id k trap (pos ∷ ps) db =
    let db' : TrapDatabase = record db {
      entry_lookup = append_at pos.entry_hash trap db.entry_lookup;
      trigger_lookup = append_trigger trap pos db.trigger_lookup;
    } in
    let rest = entries-add_positions id k trap ps db' in
    let here = any-append_at (is_entry_of id) pos.entry_hash k trap db.entry_lookup in
    rest
    ∙ bools _ (any (is_entry_of id) (list_at db.entry_lookup k)) (pos.entry_hash == k)
        (any (λ (q : TrapPosition). q.entry_hash == k) ps) (is_entry_of id trap) here

triggers-add_positions :
    (id san : String) (k : ℕ) (trap : TrapDefinition) (ps : List TrapPosition) (db : TrapDatabase)
    → any (is_trigger_of id san) (list_at (add_positions trap ps db).trigger_lookup k)
      ≡ any (is_trigger_of id san) (list_at db.trigger_lookup k)
        || any (λ (pos : TrapPosition). pos.entry_hash == k && is_san san pos.mistake_san) ps
          && is_entry_of id trap
unfolding add_positions
triggers-add_positions id san k trap [] db = ground arith
triggers-add_positions id san k trap (pos ∷ ps) db =
    let db' : TrapDatabase = record db {
      entry_lookup = append_at pos.entry_hash trap db.entry_lookup;
      trigger_lookup = append_trigger trap pos db.trigger_lookup;
    } in
    let rest = triggers-add_positions id san k trap ps db' in
    rest
    ∙ bools _ (any (is_trigger_of id san) (list_at db.trigger_lookup k))
        (pos.entry_hash == k && is_san san pos.mistake_san)
        (any (λ (q : TrapPosition). q.entry_hash == k && is_san san q.mistake_san) ps)
        (is_entry_of id trap) (any-append_trigger id san k trap pos db.trigger_lookup)

-- some trap with the id has a position with the hash
abbrev pub enters : String → ℕ → List TrapDefinition → Bool
enters id h traps = any (λ (trap : TrapDefinition). has_entry h trap && is_entry_of id trap) traps

-- and one whose mistake is the move
abbrev pub triggers : String → ℕ → String → List TrapDefinition → Bool
triggers id h san traps =
    any (λ (trap : TrapDefinition). has_trigger h san trap && is_entry_of id trap) traps

lookups-add_traps :
    (id san : String) (h : ℕ) (traps : List TrapDefinition) (db : TrapDatabase)
    → (any (is_entry_of id) (list_at (add_traps traps db).entry_lookup h)
        ≡ any (is_entry_of id) (list_at db.entry_lookup h) || enters id h traps)
      × (any (is_trigger_of id san) (list_at (add_traps traps db).trigger_lookup h)
          ≡ any (is_trigger_of id san) (list_at db.trigger_lookup h) || triggers id h san traps)
unfolding add_traps
lookups-add_traps id san h [] db = (ground arith, ground arith)
lookups-add_traps id san h (trap ∷ traps) db =
    let db' : TrapDatabase = record db { by_id = Dict.put db.by_id trap.id trap } in
    let rest = lookups-add_traps id san h traps (add_positions trap trap.positions db') in
    (
      ground (arith, rest.0, entries-add_positions id h trap trap.positions db'),
      ground (arith, rest.1, triggers-add_positions id san h trap trap.positions db'),
    )

pub lookups-new_database :
    (id san : String) (h : ℕ) (traps : List TrapDefinition)
    → (any (is_entry_of id) (list_at (new_database traps).entry_lookup h) ≡ enters id h traps)
      × (any (is_trigger_of id san) (list_at (new_database traps).trigger_lookup h)
          ≡ triggers id h san traps)
unfolding new_database Dict.get
lookups-new_database id san h traps =
    lookups-add_traps id san h traps (record { by_id = []; entry_lookup = []; trigger_lookup = [] })
