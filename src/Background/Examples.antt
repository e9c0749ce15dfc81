-- ===== src/Background/Examples.antt =====
-- A tick over three users: one with a profile that never synced, one who was deleted, and one whose interval is no
-- number.
use chess_blunder_trainer.Common.{
  ℕ, String, ◌≡◌, refl, true, Option, none, some, List, [], ◌∷◌, not, ◌==◌, string_eq, All,
  contains, Unique, if◌then◌else◌,
}
use chess_blunder_trainer.Common.Dict
use chess_blunder_trainer.Common.Dict.{Dict}
use chess_blunder_trainer.Common.Int.{pos, ◌-ℤ◌}
use chess_blunder_trainer.Events.Types.{Event, create_status_changed, create_execution_request}
use chess_blunder_trainer.Jobs.Repository
use chess_blunder_trainer.Background.Scheduler.{
  UserDb, TickEnv, setting, is_feature_enabled, is_sync_due, get_last_completed_sync_at, sync_each,
  maybe_dispatch_sync_for_user, stats_each, maybe_dispatch_stats_sync_for_user, dispatch_one_user,
  db_of, fanout, fanout_tick,
}
use chess_blunder_trainer.Background.Scheduler.Fanout.{requests_alone, fanout_is_per_user}
use chess_blunder_trainer.Background.Scheduler.Warranted.{IsOfUsers, fanout_is_warranted}

abbrev env : TickEnv
env = record {
  now = 1000000;
  int_of = λ text. if text == "6" then some (pos 6) else none;
  lower = λ text. text;
  new_job_id = λ user id. "j1";
  stats_sync_id = λ user id. "s1";
  created_at = λ user id. 1000000;
  resolves = λ user. true;
  has_directory = λ user. not (user == "bob");
}

abbrev profile_of : ℕ → UserDb
profile_of id = record {
  settings = ("auto_sync_enabled", some "true") ∷ [];
  candidates =
      record {
        profile_id = id;
        platform = "lichess";
        username = "u";
        last_stats_sync_at = some (some 999000);
      }
      ∷ [];
  jobs = [];
}

abbrev dbs : Dict String UserDb
dbs =
    ("ann", profile_of 1)
    ∷ ("bob", profile_of 2)
    ∷ (
      "cat",
      record (profile_of 3) {
        settings = ("auto_sync_enabled", some "true") ∷ ("sync_interval_hours", some "six") ∷ [];
      },
    )
    ∷ []

abbrev users : List String
users = "ann" ∷ "bob" ∷ "cat" ∷ []

abbrev job_types : List Event → List (Option String)
job_types [] = []
job_types (e ∷ es) = e.payload.job_type ∷ job_types es

users-Unique : Unique users
unfolding contains
users-Unique = (refl, (refl, (refl, tt)))

only_ann : job_types (fanout_tick env (some users) dbs).1 ≡ some "sync" ∷ some "sync" ∷ []
unfolding fanout_tick fanout dispatch_one_user maybe_dispatch_sync_for_user sync_each is_sync_due
    get_last_completed_sync_at maybe_dispatch_stats_sync_for_user stats_each db_of setting
    is_feature_enabled Dict.get Dict.put ◌-ℤ◌ Repository.create_job create_status_changed
    create_execution_request
only_ann = refl

fanout_is_per_user_example : (fanout_tick env (some users) dbs).1 ≡ requests_alone env users dbs
fanout_is_per_user_example = fanout_is_per_user env users dbs users-Unique

fanout_is_warranted_example : All (IsOfUsers env users dbs) (fanout_tick env (some users) dbs).1
fanout_is_warranted_example = fanout_is_warranted env users dbs users-Unique
