-- ===== src/Events/Types.antt =====
-- blunder_tutor/events/event_types.py. An event's data dictionary is a record of the keys that some factory sets;
-- timestamps are left out.
use chess_blunder_trainer.Common.{
  ℕ, String, ◌≡◌, Bool, true, Option, none, some, List, [], Eq, ◌↔◌, arith, ltb, nat_beq,
  if◌then◌else◌,
}

pub data EventType : Type 0 where
  job_created job_status_changed job_progress_updated job_completed job_failed : EventType
  job_execution_requested stats_updated traps_updated training_updated : EventType
  elo_rating_updated cache_invalidated : EventType

-- the value of a member, which is also its identity
abbrev pub type_value : EventType → String
type_value job_created = "job.created"
type_value job_status_changed = "job.status_changed"
type_value job_progress_updated = "job.progress_updated"
type_value job_completed = "job.completed"
type_value job_failed = "job.failed"
type_value job_execution_requested = "job.execution_requested"
type_value stats_updated = "stats.updated"
type_value traps_updated = "traps.updated"
type_value training_updated = "training.updated"
type_value elo_rating_updated = "elo_rating.updated"
type_value cache_invalidated = "cache.invalidated"

abbrev pub type_number : EventType → ℕ
type_number job_created = 0
type_number job_status_changed = 1
type_number job_progress_updated = 2
type_number job_completed = 3
type_number job_failed = 4
type_number job_execution_requested = 5
type_number stats_updated = 6
type_number traps_updated = 7
type_number training_updated = 8
type_number elo_rating_updated = 9
type_number cache_invalidated = 10

abbrev pub same_type : EventType → EventType → Bool
same_type a b = nat_beq (type_number a) (type_number b)

pub same_type_iff : (a b : EventType) → (same_type a b ≡ true) ↔ (a ≡ b)
same_type_iff a b = ground arith

instance abbrev pub event_type_eq : Eq EventType
event_type_eq = record { beq = same_type; beq_iff = same_type_iff }

pub record EventData : Type 0 where
  pub scope : Option String
  pub trigger : Option String
  pub tags : List String
  pub job_id : Option String
  pub job_type : Option String
  pub status : Option String
  pub error_message : Option String
  pub current : ℕ
  pub total : ℕ
  pub percent : ℕ
  pub user_id : Option String
  pub profile_id : Option ℕ

pub record Event : Type 0 where
  pub type : EventType
  pub payload : EventData

abbrev pub no_data : EventData
no_data = record {
  scope = none;
  trigger = none;
  tags = [];
  job_id = none;
  job_type = none;
  status = none;
  error_message = none;
  current = 0;
  total = 0;
  percent = 0;
  user_id = none;
  profile_id = none;
}

unfoldable pub create_status_changed : String → String → String → Option String → Event
create_status_changed id job_type status message = record {
  type = job_status_changed;
  payload = record no_data {
    job_id = some id;
    job_type = some job_type;
    status = some status;
    error_message = message;
  };
}

-- `percent_of` is the float computation `int((current / total) * 100)`
unfoldable pub create_progress_updated : (ℕ → ℕ → ℕ) → String → String → ℕ → ℕ → Event
create_progress_updated percent_of id job_type current total = record {
  type = job_progress_updated;
  payload = record no_data {
    job_id = some id;
    job_type = some job_type;
    current = current;
    total = total;
    percent = if ltb 0 total then percent_of current total else 0;
  };
}

unfoldable pub create_stats_updated : String → Event
create_stats_updated scope = record {
  type = stats_updated;
  payload = record no_data { trigger = some "job_completed"; scope = some scope };
}

unfoldable pub create_traps_updated : String → Event
create_traps_updated scope = record {
  type = traps_updated;
  payload = record no_data { trigger = some "trap_detection_completed"; scope = some scope };
}

unfoldable pub create_training_updated : String → Event
create_training_updated scope = record {
  type = training_updated;
  payload = record no_data { trigger = some "puzzle_attempt"; scope = some scope };
}

unfoldable pub create_elo_rating_updated : String → String → Event
create_elo_rating_updated scope trigger = record {
  type = elo_rating_updated;
  payload = record no_data { trigger = some trigger; scope = some scope };
}

unfoldable pub create_cache_invalidated : String → List String → Event
create_cache_invalidated scope tags = record {
  type = cache_invalidated;
  payload = record no_data { scope = some scope; tags = tags };
}

-- the keyword arguments that callers pass are at most a profile id
unfoldable pub create_execution_request : String → String → String → Option ℕ → Event
create_execution_request id job_type user profile = record {
  type = job_execution_requested;
  payload = record no_data {
    job_id = some id;
    job_type = some job_type;
    user_id = some user;
    profile_id = profile;
  };
}
