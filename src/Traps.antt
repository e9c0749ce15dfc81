-- ===== src/Traps.antt =====
-- TrapDatabase of blunder_tutor/analysis/traps.py. Of a trap the fields that matching reads are kept; boards, their
-- hashes and the texts of moves are python-chess's.
pub mod Lookup
pub mod Matched
pub mod Verdicts
mod Examples
use chess_blunder_trainer.Common.{
  ℕ, ◌+◌, String, Bool, true, false, Option, none, some, List, [], ◌∷◌, ◌++◌, ◌==◌, ◌&&◌, ◌||◌, not,
  if◌then◌else◌, nat_eq, string_eq, is_some, length, contains, add_key,
}
use chess_blunder_trainer.Common.Search.{and_then, map_some}
use chess_blunder_trainer.Common.Dict
use chess_blunder_trainer.Common.Dict.{Dict, keys}

pub record TrapPosition : Type 0 where
  pub entry_hash : ℕ
  pub mistake_san : Option String

pub record TrapDefinition : Type 0 where
  pub id : String
  pub victim_side : String
  pub positions : List TrapPosition

pub data MatchType : Type 0 where
  entered sprung executed : MatchType

pub record TrapMatch : Type 0 where
  pub trap_id : String
  pub match_type : MatchType
  pub user_was_victim : Bool
  pub mistake_ply : Option ℕ

pub record BoardReader (B M : Type 0) : Type 0 where
  pub zobrist_hash : B → ℕ
  pub san : B → M → String
  pub push : B → M → B

-- a `defaultdict(list)`
abbrev pub list_at {ℓ} : {A : Type ℓ} → Dict ℕ (List A) → ℕ → List A
list_at d h = elim (Dict.get d h) [ none ↦ [] | some xs ↦ xs ]

abbrev pub append_at {ℓ} : {A : Type ℓ} → ℕ → A → Dict ℕ (List A) → Dict ℕ (List A)
append_at h a d = Dict.put d h (list_at d h ++ a ∷ [])

pub record TrapDatabase : Type 0 where
  pub by_id : Dict String TrapDefinition
  pub entry_lookup : Dict ℕ (List TrapDefinition)
  pub trigger_lookup : Dict ℕ (List (TrapDefinition × TrapPosition))

abbrev pub append_trigger :
    TrapDefinition
    → TrapPosition
    → Dict ℕ (List (TrapDefinition × TrapPosition))
    → Dict ℕ (List (TrapDefinition × TrapPosition))
append_trigger trap pos d =
    if is_some pos.mistake_san then append_at pos.entry_hash (trap, pos) d else d

-- the inner loop of `__init__`
unfoldable pub add_positions : TrapDefinition → List TrapPosition → TrapDatabase → TrapDatabase
add_positions trap [] db = db
add_positions trap (pos ∷ rest) db = add_positions trap rest (record db {
  entry_lookup = append_at pos.entry_hash trap db.entry_lookup;
  trigger_lookup = append_trigger trap pos db.trigger_lookup;
})

-- the outer loop, which also fills `_by_id`
unfoldable pub add_traps : List TrapDefinition → TrapDatabase → TrapDatabase
add_traps [] db = db
add_traps (trap ∷ traps) db =
    add_traps traps
      (add_positions trap trap.positions (record db { by_id = Dict.put db.by_id trap.id trap }))

unfoldable pub new_database : List TrapDefinition → TrapDatabase
new_database traps = add_traps traps (record { by_id = []; entry_lookup = []; trigger_lookup = [] })

-- `if key not in d: d[key] = value`
abbrev pub put_new : String → ℕ → Dict String ℕ → Dict String ℕ
put_new key value d = if is_some (Dict.get d key) then d else Dict.put d key value

unfoldable pub enter_each : List TrapDefinition → ℕ → Dict String ℕ → Dict String ℕ
enter_each [] ply entered_at = entered_at
enter_each (trap ∷ traps) ply entered_at = enter_each traps ply (put_new trap.id ply entered_at)

abbrev pub is_san : String → Option String → Bool
is_san san none = false
is_san san (some mistake) = san == mistake

unfoldable pub trigger_each :
    String → List (TrapDefinition × TrapPosition) → ℕ → Dict String ℕ → Dict String ℕ
trigger_each san [] ply triggered = triggered
trigger_each san ((trap, pos) ∷ rest) ply triggered =
    trigger_each san rest ply
      (if is_san san pos.mistake_san then put_new trap.id (ply + 1) triggered else triggered)

-- `_build_match`, none on a KeyError; the user's color is whether it is white
unfoldable pub build_match : TrapDatabase → String → Option ℕ → Bool → Option TrapMatch
build_match db trap_id triggered_ply user_is_white =
    and_then (Dict.get db.by_id trap_id) (λ (trap_def : TrapDefinition).
      let victim_is_white = trap_def.victim_side == "white" in
      let user_is_victim =
        user_is_white && victim_is_white || not user_is_white && not victim_is_white in
      some (elim triggered_ply [
        | none ↦ record {
          trap_id = trap_id;
          match_type = entered;
          user_was_victim = user_is_victim;
          mistake_ply = none;
        }
        | some ply ↦ record {
          trap_id = trap_id;
          match_type = if user_is_victim then sprung else executed;
          user_was_victim = user_is_victim;
          mistake_ply = some ply;
        }
      ]))

abbrev pub with_keys : List String → List String → List String
with_keys [] ids = ids
with_keys (k ∷ ks) ids = with_keys ks (add_key k ids)

-- `entered.keys() | triggered.keys()`, in the order of insertion, where Python's set has no order
abbrev pub matched_ids : Dict String ℕ × Dict String ℕ → List String
matched_ids (entered_at, triggered) = with_keys (keys triggered) (keys entered_at)

abbrev pub matches_of : TrapDatabase → Bool → List String → Dict String ℕ → List (Option TrapMatch)
matches_of db user_is_white [] triggered = []
matches_of db user_is_white (id ∷ ids) triggered =
    build_match db id (Dict.get triggered id) user_is_white
    ∷ matches_of db user_is_white ids triggered

module _ {B M : Type 0} (reader : BoardReader B M) (db : TrapDatabase) where
  -- `_scan_position`: what was entered and what was triggered
  unfoldable pub scan_position :
      B → M → ℕ → Dict String ℕ × Dict String ℕ → Dict String ℕ × Dict String ℕ
  scan_position cursor move ply (entered_at, triggered) =
      let h = reader.zobrist_hash cursor in
      (
        enter_each (list_at db.entry_lookup h) ply entered_at,
        trigger_each (reader.san cursor move) (list_at db.trigger_lookup h) ply triggered,
      )

  -- the loop of `match_game` from a ply on, with `_finalize_entries` at its end
  unfoldable pub scan_moves :
      B → List M → ℕ → Dict String ℕ × Dict String ℕ → Dict String ℕ × Dict String ℕ
  scan_moves cursor [] ply found =
      (enter_each (list_at db.entry_lookup (reader.zobrist_hash cursor)) ply found.0, found.1)
  scan_moves cursor (move ∷ moves) ply found =
      scan_moves (reader.push cursor move) moves (ply + 1) (scan_position cursor move ply found)

  -- `match_game` of the moves of a game from its first board
  unfoldable pub match_game : B → List M → Bool → List (Option TrapMatch)
  match_game root moves user_is_white =
      let found = scan_moves root moves 0 ([], []) in
      matches_of db user_is_white (matched_ids found) found.1
