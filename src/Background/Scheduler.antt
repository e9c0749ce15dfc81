-- ===== src/Background/Scheduler.antt =====
-- One tick of blunder_tutor/background/scheduler.py. A user's database is what the tick reads and writes of it;
-- what is published are the events, in order. A stored timestamp is what `parse_dt` makes of it, `some none`
-- when it raises ValueError.
pub mod Warranted
pub mod Fanout
use chess_blunder_trainer.Common.{
  ℕ, ◌+◌, ◌*◌, String, Bool, true, false, Option, none, some, List, [], ◌∷◌, ◌++◌, ◌==◌, ◌&&◌, ◌||◌,
  not, if◌then◌else◌, string_eq, nat_eq, ltb,
}
use chess_blunder_trainer.Common.Dict
use chess_blunder_trainer.Common.Dict.{Dict}
use chess_blunder_trainer.Common.Int.{ℤ, pos, negsuc, neg, ◌-ℤ◌, leb_ℤ}
use chess_blunder_trainer.Events.Types.{Event, create_status_changed, create_execution_request}
use chess_blunder_trainer.Jobs.Repository.{Job}
use chess_blunder_trainer.Jobs.Repository

abbrev Timestamp : Type 0
Timestamp = Option ℕ

-- ProfileSyncCandidate of blunder_tutor/repositories/profile.py
pub record Candidate : Type 0 where
  pub profile_id : ℕ
  pub platform : String
  pub username : String
  pub last_stats_sync_at : Option Timestamp

pub record UserDb : Type 0 where
  pub settings : Dict String (Option String)
  pub candidates : List Candidate
  pub jobs : Dict String Job

-- the clock in seconds, Python's `int` and `str.lower`, the new ids and creation times of a user's profile, the path
-- of a user's database, and whether its directory is there
pub record TickEnv : Type 0 where
  pub now : ℕ
  pub int_of : String → Option ℤ
  pub lower : String → String
  pub new_job_id : String → ℕ → String
  pub stats_sync_id : String → ℕ → String
  pub created_at : String → ℕ → ℕ
  pub resolves : String → Bool
  pub has_directory : String → Bool

-- what is left of a user's pass: the database, the events, and whether nothing was raised
pub record Pass : Type 0 where
  pub db : UserDb
  pub events : List Event
  pub went_on : Bool

unfoldable pub setting : Dict String (Option String) → String → Option String
setting settings key = elim (Dict.get settings key) [ none ↦ none | some value ↦ value ]

abbrev pub is_text : String → Option String → Bool
is_text text none = false
is_text text (some value) = value == text

-- the key comes with its prefix "feature_"
unfoldable pub is_feature_enabled : Dict String (Option String) → String → Bool
is_feature_enabled settings feature_key = not (is_text "false" (setting settings feature_key))

-- `int(value) if value else default`, `none` when `int` raises ValueError
abbrev pub hours_or : (String → Option ℤ) → ℤ → Option String → Option ℤ
hours_or int_of default none = some default
hours_or int_of default (some value) = if value == "" then some default else int_of value

abbrev seconds : ℤ → ℤ
seconds (pos hours) = pos (hours * 3600)
seconds (negsuc hours) = neg (pos ((hours + 1) * 3600))

unfoldable pub is_sync_due : ℕ → Option Timestamp → ℤ → Bool
is_sync_due now none interval_hours = true
is_sync_due now (some none) interval_hours = true
is_sync_due now (some (some last)) interval_hours =
    leb_ℤ (seconds interval_hours) (pos now -ℤ pos last)

-- a completed import or sync of the source and the user name, in any case
abbrev counts_as_sync : (String → String) → String → String → Job → Bool
counts_as_sync lower source username job =
    is_text source job.source
    && (elim job.username [ none ↦ false | some name ↦ lower name == lower username ])
    && job.status == "completed"
    && (job.job_type == "import" || job.job_type == "sync")

abbrev later : Option Timestamp → Option ℕ → Option Timestamp
later best none = best
later none (some t) = some (some t)
later (some none) (some t) = some (some t)
later (some (some best)) (some t) = some (some (if ltb best t then t else best))

-- `JobRepository.get_last_completed_sync_at`, SELECT MAX(completed_at)
unfoldable pub get_last_completed_sync_at :
    (String → String) → Dict String Job → String → String → Option Timestamp
get_last_completed_sync_at lower [] source username = none
get_last_completed_sync_at lower ((id, job) ∷ jobs) source username =
    let rest = get_last_completed_sync_at lower jobs source username in
    if counts_as_sync lower source username job then later rest job.completed_at else rest

abbrev raised_with : UserDb → List Event → Pass
raised_with db events = record { db = db; events = events; went_on = false }

abbrev pub passed_with : UserDb → List Event → Pass
passed_with db events = record { db = db; events = events; went_on = true }

-- the row that `create_job` inserts for a candidate, with the columns that it leaves out
unfoldable pub sync_job : ℕ → Candidate → Job
sync_job created_at c = record {
  job_type = "sync";
  status = "pending";
  username = some c.username;
  source = some c.platform;
  start_date = none;
  end_date = none;
  max_games = none;
  progress_current = 0;
  progress_total = 0;
  created_at = created_at;
  started_at = none;
  completed_at = none;
  error_message = none;
  result = none;
}

module _ (env : TickEnv) where
  abbrev pub create_sync_job : String → Candidate → Dict String Job → Option (Dict String Job)
  create_sync_job user c =
      Repository.create_job (env.new_job_id user c.profile_id)
        (sync_job (env.created_at user c.profile_id) c)

  -- the two events of a game sync: `JobService.create_job` publishes the first
  abbrev pub sync_events : String → Candidate → List Event
  sync_events user c =
      create_status_changed (env.new_job_id user c.profile_id) "sync" "pending" none
      ∷ create_execution_request (env.new_job_id user c.profile_id) "sync" user (some c.profile_id)
      ∷ []

  abbrev pub is_game_sync_due : UserDb → Candidate → ℤ → Bool
  is_game_sync_due db c hours =
      is_sync_due env.now (get_last_completed_sync_at env.lower db.jobs c.platform c.username) hours

  -- the loop of `_maybe_dispatch_sync_for_user`; the key of a new row that is taken is an IntegrityError
  unfoldable pub sync_each : String → ℤ → List Candidate → UserDb → List Event → Pass
  sync_each user hours [] db events = passed_with db events
  sync_each user hours (c ∷ cs) db events =
      let later_only = sync_each user hours cs db events in
      if not (is_game_sync_due db c hours)
      then later_only
      else elim (create_sync_job user c db.jobs) [
        | none ↦ raised_with db events
        | some jobs ↦
            sync_each user hours cs (record db { jobs = jobs }) (events ++ sync_events user c)
      ]

  abbrev pub sync_at : String → Option ℤ → UserDb → Pass
  sync_at user none db = raised_with db []
  sync_at user (some hours) db = sync_each user hours db.candidates db []

  -- `_maybe_dispatch_sync_for_user`
  unfoldable pub maybe_dispatch_sync_for_user : String → UserDb → Pass
  maybe_dispatch_sync_for_user user db =
      if not (is_feature_enabled db.settings "feature_auto.sync")
      then passed_with db []
      else if not (is_text "true" (setting db.settings "auto_sync_enabled"))
      then passed_with db []
      else sync_at user (hours_or env.int_of (pos 24) (setting db.settings "sync_interval_hours"))
          db

  abbrev pub stats_request : String → Candidate → Event
  stats_request user c =
      create_execution_request (env.stats_sync_id user c.profile_id) "stats_sync" user
        (some c.profile_id)

  -- the loop of `_maybe_dispatch_stats_sync_for_user`
  unfoldable pub stats_each : String → ℤ → List Candidate → List Event
  stats_each user hours [] = []
  stats_each user hours (c ∷ cs) =
      let rest = stats_each user hours cs in
      if not (is_sync_due env.now c.last_stats_sync_at hours)
      then rest
      else stats_request user c ∷ rest

  abbrev pub stats_at : String → Option ℤ → UserDb → List Event
  stats_at user none db = []
  stats_at user (some hours) db = stats_each user hours db.candidates

  -- the events of `_maybe_dispatch_stats_sync_for_user`, none when it raises
  unfoldable pub maybe_dispatch_stats_sync_for_user : String → UserDb → List Event
  maybe_dispatch_stats_sync_for_user user db =
      stats_at user (hours_or env.int_of (pos 1) (setting db.settings "stats_sync_interval_hours"))
        db

  -- `_dispatch_one_user`: what is raised is logged, and what was published before it stays
  unfoldable pub dispatch_one_user : String → UserDb → UserDb × List Event
  dispatch_one_user user db =
      if not (env.resolves user)
      then (db, [])
      else if not (env.has_directory user)
      then (db, [])
      else let games = maybe_dispatch_sync_for_user user db in
        let stats = maybe_dispatch_stats_sync_for_user user games.db in
        (games.db, (if games.went_on then games.events ++ stats else games.events))

  abbrev pub empty_db : UserDb
  empty_db = record { settings = []; candidates = []; jobs = [] }

  unfoldable pub db_of : Dict String UserDb → String → UserDb
  db_of dbs user = elim (Dict.get dbs user) [ none ↦ empty_db | some db ↦ db ]

  -- the loop of `_fanout_tick` over the users that `list_users` gives
  unfoldable pub fanout : List String → Dict String UserDb → Dict String UserDb × List Event
  fanout [] dbs = (dbs, [])
  fanout (user ∷ users) dbs =
      let (db, events) = dispatch_one_user user (db_of dbs user) in
      let (dbs', rest) = fanout users (Dict.put dbs user db) in (dbs', events ++ rest)

  -- `_fanout_tick`; `none` when `list_users` raises
  unfoldable pub fanout_tick :
      Option (List String) → Dict String UserDb → Dict String UserDb × List Event
  fanout_tick none dbs = (dbs, [])
  fanout_tick (some users) dbs = fanout users dbs
