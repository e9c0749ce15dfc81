-- ===== src/Auth/Examples.antt =====
-- Concrete runs of blunder_tutor/auth/core/service.py.
use chess_blunder_trainer.Common.{
  ◌≤◌, String, ◌≡◌, refl, true, false, none, some, List, [], ◌∷◌, ◌==◌, ◌⊎◌, if◌then◌else◌, arith,
  length, string_eq, keep,
}
use chess_blunder_trainer.Common.Dict
use chess_blunder_trainer.Auth.Types.{
  User, UserContext, PasswordHasher, ValidationRules, make_username, AuthError, ok, raised,
  credentials_provider_name,
}
use chess_blunder_trainer.Auth.Tables.{
  AuthDb, transaction, row_to_user, exists_row, first, has_id, has_username, has_email, has_subject,
  has_identity_id, has_token, same_text,
}
use chess_blunder_trainer.Auth.Tables.UserRepository
use chess_blunder_trainer.Auth.Tables.IdentityRepository
use chess_blunder_trainer.Auth.Tables.SessionRepository
use chess_blunder_trainer.Auth.Tables.SetupRepository
use chess_blunder_trainer.Auth.Policies.{
  max_users_quota, hmac_invite_policy, invite_code_setup_key, allow_signup, consume, redeem,
}
use chess_blunder_trainer.Auth.Service.{
  AuthService, finalize_registration, signup_body, and_then, insert_user_with_credential, user_of,
  identity_of, lookup_name, resolve_live, load_live_session, is_dead, maybe_bump_last_seen,
  context_of, SignupRequest, signup, authenticate, resolve_session, change_password,
}
use chess_blunder_trainer.Auth.Service.Runs.{
  Op, do_signup, do_resolve, do_create_session, step, run,
}
use chess_blunder_trainer.Auth.Service.Revoked.{password_change_logs_out, opens_session}
use chess_blunder_trainer.Auth.Service.Quota.{user_cap_holds, is_gated}
use chess_blunder_trainer.Auth.Service.Login.{signup_then_authenticate, accepts}
use chess_blunder_trainer.Auth.Service.Invite.{invite_gates_first_user}
use chess_blunder_trainer.Auth.Service.Signup.{SignedUp, IsFinished, signup_all_or_nothing}

-- a hasher that marks the password, and refuses the empty one
abbrev mark_hasher : PasswordHasher
mark_hasher = record {
  hash = λ p. if p == "" then none else some p;
  verify = λ p h. some (p == h);
  dummy_hash = "dummy";
}

abbrev any_rules : ValidationRules
any_rules = record {
  strip_lower = λ s. s;
  username_re = λ s. true;
  email_re = λ s. true;
  text_length = λ s. 5;
  byte_length = λ s. 9;
  password_min = 8;
  password_max_bytes = 72;
  email_max_len = 254;
}

abbrev service : AuthService
service = record {
  hasher = mark_hasher;
  rules = any_rules;
  quota = max_users_quota 2;
  invite_policy = hmac_invite_policy;
  session_max_age = 1000;
  session_idle = 100;
  on_after_register = λ u. none;
  on_after_delete = λ user_id. none;
}

abbrev empty_db : AuthDb
empty_db = record {
  users = [];
  identities = [];
  sessions = [];
  setup = ("invite_code", "code") ∷ [];
}

abbrev anna : SignupRequest
anna = record {
  username = "anna";
  password = "secret";
  email = none;
  invite_code = some "code";
  user_id = "u1";
  identity_id = "i1";
  now = 10;
}

abbrev anna_user : User
anna_user = record { id = "u1"; username = "anna"; email = none; created_at = 10 }

abbrev anna_db : AuthDb
anna_db = (signup service anna empty_db).1

anna_signed_up : signup service anna empty_db ≡ (ok anna_user, anna_db)
unfolding signup finalize_registration transaction signup_body and_then allow_signup consume redeem
    SetupRepository.get_in_transaction SetupRepository.delete_in_transaction
    insert_user_with_credential UserRepository.insert_in_transaction UserRepository.get_by_id
    UserRepository.count IdentityRepository.insert_in_transaction user_of identity_of row_to_user
    exists_row first has_id has_username has_email has_subject has_identity_id same_text Dict.get
    Dict.remove
anna_signed_up = refl

signup_all_or_nothing_example :
    ((e : AuthError) × (signup service anna empty_db ≡ (raised e, empty_db)))
    ⊎ ((u : User) × (db' : AuthDb) × SignedUp service anna empty_db u db'
        × IsFinished service u db' (signup service anna empty_db))
signup_all_or_nothing_example = signup_all_or_nothing service anna empty_db

signup_then_authenticate_example :
    authenticate service credentials_provider_name "anna" "secret" anna_db
    ≡ (if accepts service "secret" "secret" then some anna_user else none)
signup_then_authenticate_example =
    signup_then_authenticate service anna empty_db anna_db anna_user "secret" "anna" "secret"
      anna_signed_up refl refl refl (unfold lookup_name make_username in refl)

invite_gates_first_user_example :
    (code : String) × (anna.invite_code ≡ some code)
    × (Dict.get empty_db.setup invite_code_setup_key ≡ some code)
    × (Dict.get anna_db.setup invite_code_setup_key ≡ none)
invite_gates_first_user_example =
    invite_gates_first_user service anna empty_db anna_db anna_user refl refl anna_signed_up

abbrev busy : List Op
busy =
    do_signup anna
    ∷ do_create_session "t" "u1" none none 20
    ∷ do_resolve 30 "t"
    ∷ do_signup anna
    ∷ []

user_cap_holds_example : length (run service busy empty_db).users ≤ 2
user_cap_holds_example =
    user_cap_holds service 2 busy empty_db refl
      (unfold is_gated in (refl, (refl, (refl, (refl, tt))))) (omega arith)

-- the other user keeps the session
abbrev two_users : AuthDb
two_users = record {
  users = anna_user ∷ record { id = "u2"; username = "ben"; email = none; created_at = 11 } ∷ [];
  identities = [];
  sessions =
      record {
        token = "t1";
        user_id = "u1";
        created_at = 20;
        expires_at = 900;
        last_seen_at = 20;
        user_agent = none;
        ip_address = none;
      }
      ∷ record {
        token = "t2";
        user_id = "u2";
        created_at = 20;
        expires_at = 900;
        last_seen_at = 20;
        user_agent = none;
        ip_address = none;
      }
      ∷ [];
  setup = [];
}

abbrev ben_context : UserContext
ben_context = record { user_id = "u2"; username = "ben"; session_token = some "t2" }

password_change_logs_out_example : (ben_context.user_id == "u1") ≡ false
unfolding resolve_live load_live_session SessionRepository.get first
    SessionRepository.delete_all_for_user keep IdentityRepository.update_credential has_token
    is_dead context_of UserRepository.get_by_id maybe_bump_last_seen
    SessionRepository.bump_last_seen has_id row_to_user
password_change_logs_out_example =
    password_change_logs_out service "u1" "i1" "better" two_users (do_resolve 30 "t1" ∷ []) 40 "t2"
      ben_context (unfold change_password in refl) (unfold opens_session in (refl, tt))
      (unfold run step resolve_session change_password in refl)
