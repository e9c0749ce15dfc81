-- ===== src/Traps/Verdicts.antt =====
-- What `match_game` says of each trap that it matches.
use chess_blunder_trainer.Common.{
  ℕ, ◌+◌, ◌≡◌, refl, ap, sym, ◌∙◌, String, Bool, true, false, Option, none, some, List, [], ◌∷◌,
  ◌==◌, ◌||◌, ◌&&◌, ◌↔◌, not, if◌then◌else◌, nat_eq, string_eq, is_some, contains, All, All-intro,
  arith, Bool-cases, Option-cases, inl, inr,
}
use chess_blunder_trainer.Common.Search.{or_else}
use chess_blunder_trainer.Common.Dict
use chess_blunder_trainer.Common.Dict.{Dict, get-put}
use chess_blunder_trainer.Traps.{
  TrapPosition, TrapDefinition, MatchType, entered, sprung, executed, TrapMatch, BoardReader,
  TrapDatabase, add_positions, add_traps, new_database, scan_moves, build_match, matched_ids,
  matches_of, match_game,
}
use chess_blunder_trainer.Traps.Lookup.{any, is_entry_of, enters, triggers}
use chess_blunder_trainer.Traps.Matched.{entry_ply, mistake_ply_of, matched_ids_exact}

by_id-add_positions :
    (trap : TrapDefinition) (ps : List TrapPosition) (db : TrapDatabase)
    → (add_positions trap ps db).by_id ≡ db.by_id
unfolding add_positions
by_id-add_positions trap [] db = refl
by_id-add_positions trap (pos ∷ ps) db = by_id-add_positions trap ps _

-- the last trap of the list with the id
abbrev pub last_of : String → List TrapDefinition → Option TrapDefinition
last_of id [] = none
last_of id (trap ∷ traps) = or_else (last_of id traps) (if trap.id == id then some trap else none)

put_or :
    (b : Bool) (trap : TrapDefinition) (o l : Option TrapDefinition)
    → or_else l (if b then some trap else o) ≡ or_else (or_else l (if b then some trap else none)) o
put_or b trap o none = ground arith
put_or b trap o (some t) = refl

or_none : (l : Option TrapDefinition) → or_else l none ≡ l
or_none none = refl
or_none (some t) = refl

by_id-add_traps :
    (id : String) (traps : List TrapDefinition) (db : TrapDatabase)
    → Dict.get (add_traps traps db).by_id id ≡ or_else (last_of id traps) (Dict.get db.by_id id)
unfolding add_traps
by_id-add_traps id [] db = refl
by_id-add_traps id (trap ∷ traps) db =
    let put_trap : TrapDatabase = record db { by_id = Dict.put db.by_id trap.id trap } in
    by_id-add_traps id traps (add_positions trap trap.positions put_trap)
    ∙ ap (λ d. or_else (last_of id traps) (Dict.get d id))
        (by_id-add_positions trap trap.positions put_trap)
    ∙ ap (λ (o : Option TrapDefinition). or_else (last_of id traps) o)
        (get-put db.by_id trap.id id trap)
    ∙ put_or (trap.id == id) trap (Dict.get db.by_id id) (last_of id traps)

by_id_lem :
    (id : String) (traps : List TrapDefinition)
    → Dict.get (new_database traps).by_id id ≡ last_of id traps
unfolding new_database Dict.get
by_id_lem id traps =
    by_id-add_traps id traps (record { by_id = []; entry_lookup = []; trigger_lookup = [] })
    ∙ or_none (last_of id traps)

last_of-any :
    (id : String) (traps : List TrapDefinition)
    → any (is_entry_of id) traps ≡ true
    → is_some (last_of id traps) ≡ true
last_of-any id [] h = h
last_of-any id (trap ∷ traps) h = ground (arith, h, last_of-any id traps)

enters-known :
    (id : String) (h : ℕ) (traps : List TrapDefinition)
    → enters id h traps ≡ true
    → any (is_entry_of id) traps ≡ true
enters-known id h [] e = e
enters-known id h (trap ∷ traps) e = ground (arith, e, enters-known id h traps)

triggers-known :
    (id : String) (h : ℕ) (san : String) (traps : List TrapDefinition)
    → triggers id h san traps ≡ true
    → any (is_entry_of id) traps ≡ true
triggers-known id h san [] e = e
triggers-known id h san (trap ∷ traps) e = ground (arith, e, triggers-known id h san traps)

found_by_test :
    (b : Bool) (v : ℕ) (o : Option ℕ) (c : Bool)
    → (b ≡ true → c ≡ true)
    → (is_some o ≡ true → c ≡ true)
    → is_some (or_else (if b then some v else none) o) ≡ true
    → c ≡ true
found_by_test true v o c f g h = f refl
found_by_test false v o c f g h = g h

module _ {B M : Type 0} (reader : BoardReader B M) (traps : List TrapDefinition) (id : String) where
  entry_ply-known :
      (cursor : B) (moves : List M) (ply : ℕ)
      → is_some (entry_ply reader traps id cursor moves ply) ≡ true
      → any (is_entry_of id) traps ≡ true
  entry_ply-known cursor [] ply =
      found_by_test (enters id (reader.zobrist_hash cursor) traps) ply none _
        (enters-known id (reader.zobrist_hash cursor) traps) (λ e. ground (arith, e))
  entry_ply-known cursor (move ∷ moves) ply =
      found_by_test (enters id (reader.zobrist_hash cursor) traps) ply _ _
        (enters-known id (reader.zobrist_hash cursor) traps)
        (entry_ply-known (reader.push cursor move) moves (ply + 1))

  mistake_ply-known :
      (cursor : B) (moves : List M) (ply : ℕ)
      → is_some (mistake_ply_of reader traps id cursor moves ply) ≡ true
      → any (is_entry_of id) traps ≡ true
  mistake_ply-known cursor [] ply = λ e. ground (arith, e)
  mistake_ply-known cursor (move ∷ moves) ply =
      found_by_test (triggers id (reader.zobrist_hash cursor) (reader.san cursor move) traps)
        (ply + 1) _ _
        (triggers-known id (reader.zobrist_hash cursor) (reader.san cursor move) traps)
        (mistake_ply-known (reader.push cursor move) moves (ply + 1))

abbrev pub verdict : Option ℕ → Bool → MatchType
verdict none victim = entered
verdict (some ply) victim = if victim then sprung else executed

victim_is :
    (white victim_white : Bool)
    → (white && victim_white || not white && not victim_white ≡ true) ↔ (white ≡ victim_white)
victim_is white victim_white = ground arith

module _ {B M : Type 0} (reader : BoardReader B M) (traps : List TrapDefinition) where
  -- a match of a trap: the trap, its first mistake, whether the user plays the victim's side, and the verdict that
  -- follows
  abbrev pub IsMatchOf : B → List M → Bool → Option TrapMatch → Type 0
  IsMatchOf root moves user_is_white o =
      (m : TrapMatch) × (trap : TrapDefinition) × (o ≡ some m)
      × (last_of m.trap_id traps ≡ some trap)
      × (m.mistake_ply ≡ mistake_ply_of reader traps m.trap_id root moves 0)
      × ((m.user_was_victim ≡ true) ↔ (user_is_white ≡ (trap.victim_side == "white")))
      × (m.match_type ≡ verdict m.mistake_ply m.user_was_victim)

  build_match-IsMatchOf :
      (db : TrapDatabase) (root : B) (moves : List M) (id : String) (ply : Option ℕ) (color : Bool)
      → is_some (Dict.get db.by_id id) ≡ true
      → Dict.get db.by_id id ≡ last_of id traps
      → ply ≡ mistake_ply_of reader traps id root moves 0
      → IsMatchOf root moves color (build_match db id ply color)
  unfolding build_match
  build_match-IsMatchOf db root moves id none color known last e =
      elim (Option-cases (Dict.get db.by_id id)) [
        | inl absent ↦ ground (arith, absent, known)
        | inr (trap, there) ↦ rw there (
          _,
          trap,
          refl,
          sym last ∙ there,
          e,
          victim_is color (trap.victim_side == "white"),
          refl,
        )
      ]
  build_match-IsMatchOf db root moves id (some ply) color known last e =
      elim (Option-cases (Dict.get db.by_id id)) [
        | inl absent ↦ ground (arith, absent, known)
        | inr (trap, there) ↦ rw there (
          _,
          trap,
          refl,
          sym last ∙ there,
          e,
          victim_is color (trap.victim_side == "white"),
          refl,
        )
      ]

  matches_of-IsMatchOf :
      (db : TrapDatabase) (root : B) (moves : List M) (color : Bool) (triggered : Dict String ℕ)
      (ids : List String)
      → All (λ id. is_some (Dict.get db.by_id id) ≡ true) ids
      → ((id : String) → Dict.get db.by_id id ≡ last_of id traps)
      → ((id : String) → Dict.get triggered id ≡ mistake_ply_of reader traps id root moves 0)
      → All (IsMatchOf root moves color) (matches_of db color ids triggered)
  matches_of-IsMatchOf db root moves color triggered [] known last first = tt
  matches_of-IsMatchOf db root moves color triggered (id ∷ ids) known last first = (
    build_match-IsMatchOf db root moves id (Dict.get triggered id) color known.0 (last id)
        (first id),
    matches_of-IsMatchOf db root moves color triggered ids known.1 last first,
  )

  matched-known :
      (root : B) (moves : List M) (id : String)
      → contains (matched_ids (scan_moves reader (new_database traps) root moves 0 ([], []))) id
        ≡ true
      → is_some (Dict.get (new_database traps).by_id id) ≡ true
  matched-known root moves id h =
      let either = sym (matched_ids_exact reader traps root moves id).0 ∙ h in
      let known : any (is_entry_of id) traps ≡ true =
        elim (Bool-cases (is_some (entry_ply reader traps id root moves 0))) [
          | inl in_trap ↦ entry_ply-known reader traps id root moves 0 in_trap
          | inr never ↦
              mistake_ply-known reader traps id root moves 0 (ground (arith, either, never))
        ] in
      ap (λ (o : Option TrapDefinition). is_some o) (by_id_lem id traps)
      ∙ last_of-any id traps known

  -- Matching a game never fails on a missing trap. Each match names a trap of the list, by the last of that id, with the
  -- ply of its first mistake, if it was made, and with whether the user's color is the trap's victim side. Without a
  -- mistake the trap was only entered, with one it was sprung when the user was the victim, and executed otherwise.
  pub match_game-IsMatchOf :
      (root : B) (moves : List M) (color : Bool)
      → All (IsMatchOf root moves color) (match_game reader (new_database traps) root moves color)
  unfolding match_game
  match_game-IsMatchOf root moves color =
      let found = scan_moves reader (new_database traps) root moves 0 ([], []) in
      matches_of-IsMatchOf (new_database traps) root moves color found.1 (matched_ids found)
        (All-intro (matched_ids found) (λ id h. matched-known root moves id h))
        (λ id. by_id_lem id traps) (λ id. (matched_ids_exact reader traps root moves id).2)
