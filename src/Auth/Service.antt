-- ===== src/Auth/Service.antt =====
-- AuthService of blunder_tutor/auth/core/service.py and CredentialsProvider of blunder_tutor/auth/providers/credentials.py. The
-- ids, the tokens and the time that an operation takes from outside are its arguments. The write
-- lock makes each operation one step.
pub mod Runs
pub mod Sessions
pub mod Revoked
pub mod Quota
pub mod Signup
pub mod Login
pub mod Invite
use chess_blunder_trainer.Common.{
  ℕ, ◌+◌, ◌-◌, ◌/◌, String, Bool, true, false, Option, none, some, List, [], ◌∷◌, ◌==◌, ◌||◌, not,
  if◌then◌else◌, string_eq, ltb, leb,
}
use chess_blunder_trainer.Auth.Types.{
  User, Identity, Session, UserContext, credentials_provider_name, AuthError,
  invalid_password_error, hook_error, user_cap_reached_error, assertion_error, Result, ok, raised,
  PasswordHasher, ValidationRules, make_username,
}
use chess_blunder_trainer.Auth.Tables.{AuthDb, transaction}
use chess_blunder_trainer.Auth.Tables.UserRepository
use chess_blunder_trainer.Auth.Tables.IdentityRepository
use chess_blunder_trainer.Auth.Tables.SessionRepository
use chess_blunder_trainer.Auth.Policies.{QuotaPolicy, allow_signup, InvitePolicy, consume}

-- each hook gives the text of what it raises; they work outside the tables of the service
pub record AuthService : Type 0 where
  pub hasher : PasswordHasher
  pub rules : ValidationRules
  pub quota : QuotaPolicy
  pub invite_policy : InvitePolicy
  pub session_max_age : ℕ
  pub session_idle : ℕ
  pub on_after_register : User → Option String
  pub on_after_delete : String → Option String

-- what a registration brings with it: its arguments, the fresh ids and the time
pub record SignupRequest : Type 0 where
  pub username : String
  pub password : String
  pub email : Option String
  pub invite_code : Option String
  pub user_id : String
  pub identity_id : String
  pub now : ℕ

unfoldable pub and_then : Result AuthDb → (AuthDb → Result AuthDb) → Result AuthDb
and_then (ok db) f = f db
and_then (raised e) f = raised e

unfoldable pub user_of : SignupRequest → User
user_of r = record { id = r.user_id; username = r.username; email = r.email; created_at = r.now }

unfoldable pub identity_of : SignupRequest → String → Identity
identity_of r credential = record {
  id = r.identity_id;
  user_id = r.user_id;
  provider = credentials_provider_name;
  provider_subject = r.username;
  credential = some credential;
  created_at = r.now;
}

unfoldable pub insert_user_with_credential : SignupRequest → String → AuthDb → Result AuthDb
insert_user_with_credential r credential db =
    and_then (UserRepository.insert_in_transaction (user_of r) db)
      (IdentityRepository.insert_in_transaction (identity_of r credential))

-- the body of the transaction of `signup`
unfoldable pub signup_body : AuthService → SignupRequest → String → AuthDb → Result AuthDb
signup_body service r credential db =
    if not (allow_signup service.quota (UserRepository.count db))
    then raised user_cap_reached_error
    else and_then (consume service.invite_policy r.invite_code (UserRepository.count db) db)
        (insert_user_with_credential r credential)

-- what awaiting the hook gives
abbrev pub after_hook : Option String → User → AuthDb → Result User × AuthDb
after_hook none u db = (ok u, db)
after_hook (some text) u db = (raised (hook_error text), db)

-- `_finalize_registration` reads the row back and runs the hook, after the commit
unfoldable pub finalize_registration :
    AuthService → String → Result AuthDb × AuthDb → Result User × AuthDb
finalize_registration service user_id (raised e, db) = (raised e, db)
finalize_registration service user_id (ok committed, db) =
    elim (UserRepository.get_by_id user_id db) [
      | none ↦ (raised assertion_error, db)
      | some u ↦ after_hook (service.on_after_register u) u db
    ]

unfoldable pub register : AuthService → SignupRequest → AuthDb → Result User × AuthDb
register service r db = elim (service.hasher.hash r.password) [
  | none ↦ (raised invalid_password_error, db)
  | some credential ↦
      finalize_registration service r.user_id
        (transaction (insert_user_with_credential r credential) db)
]

unfoldable pub signup : AuthService → SignupRequest → AuthDb → Result User × AuthDb
signup service r db = elim (service.hasher.hash r.password) [
  | none ↦ (raised invalid_password_error, db)
  | some credential ↦
      finalize_registration service r.user_id (transaction (signup_body service r credential) db)
]

-- the hash that `CredentialsProvider.authenticate` verifies against
unfoldable pub hash_to_verify : AuthService → Option Identity → String
hash_to_verify service none = service.hasher.dummy_hash
hash_to_verify service (some i) = elim i.credential [
  | none ↦ service.hasher.dummy_hash
  | some h ↦ h
]

-- `identity is None or identity.credential is None or not verified`
unfoldable pub verified_identity : Bool → Option Identity → Option Identity
verified_identity verified none = none
verified_identity verified (some i) = elim i.credential [
  | none ↦ none
  | some h ↦ if verified then some i else none
]

unfoldable pub lookup_name : ValidationRules → String → String
lookup_name rules raw = elim (make_username rules raw) [ none ↦ "" | some name ↦ name ]

unfoldable pub credentials_authenticate : AuthService → String → String → AuthDb → Option Identity
credentials_authenticate service raw_username raw_password db =
    if raw_username == "" || raw_password == ""
    then none
    else let identity =
        IdentityRepository.get_by_provider_subject credentials_provider_name
          (lookup_name service.rules raw_username) db in
      verified_identity
        (elim (service.hasher.verify raw_password (hash_to_verify service identity)) [
          | none ↦ false
          | some b ↦ b
        ])
        identity

-- `authenticate` with the one provider that the program registers
unfoldable pub authenticate : AuthService → String → String → String → AuthDb → Option User
authenticate service provider raw_username raw_password db =
    if not (provider == credentials_provider_name)
    then none
    else elim (credentials_authenticate service raw_username raw_password db) [
      | none ↦ none
      | some i ↦ UserRepository.get_by_id i.user_id db
    ]

unfoldable pub create_session :
    AuthService
    → String
    → String
    → Option String
    → Option String
    → ℕ
    → AuthDb
    → Result Session × AuthDb
create_session service token user_id user_agent ip now db =
    elim (SessionRepository.insert
      (record {
        token = token;
        user_id = user_id;
        created_at = now;
        expires_at = now + service.session_max_age;
        last_seen_at = now;
        user_agent = user_agent;
        ip_address = ip;
      })
      db) [
        | raised e ↦ (raised e, db)
        | ok db' ↦ elim (SessionRepository.get token db') [
          | none ↦ (raised assertion_error, db')
          | some s ↦ (ok s, db')
        ]
      ]

-- past its absolute expiry or its idle timeout
unfoldable pub is_dead : AuthService → ℕ → Session → Bool
is_dead service now s = ltb s.expires_at now || ltb (s.last_seen_at + service.session_idle) now

unfoldable pub load_live_session : AuthService → ℕ → String → AuthDb → Option Session × AuthDb
load_live_session service now token db = elim (SessionRepository.get token db) [
  | none ↦ (none, db)
  | some s ↦
      if is_dead service now s then (none, SessionRepository.delete token db) else (some s, db)
]

-- the clock does not run back, so the time since the last sight is `now - last_seen_at`
unfoldable pub maybe_bump_last_seen : AuthService → ℕ → String → Session → AuthDb → AuthDb
maybe_bump_last_seen service now token s db =
    if leb (service.session_idle / 10) (now - s.last_seen_at)
    then SessionRepository.bump_last_seen now token db
    else db

unfoldable pub context_of : String → Option User → AuthDb → Option UserContext × AuthDb
context_of token none db = (none, SessionRepository.delete token db)
context_of token (some u) db =
    (some (record { user_id = u.id; username = u.username; session_token = some token }), db)

unfoldable pub resolve_live :
    AuthService → ℕ → String → Option Session × AuthDb → Option UserContext × AuthDb
resolve_live service now token (none, db) = (none, db)
resolve_live service now token (some s, db) =
    let bumped = maybe_bump_last_seen service now token s db in
    context_of token (UserRepository.get_by_id s.user_id bumped) bumped

unfoldable pub resolve_session : AuthService → ℕ → String → AuthDb → Option UserContext × AuthDb
resolve_session service now token db =
    if token == ""
    then (none, db)
    else resolve_live service now token (load_live_session service now token db)

unfoldable pub revoke_session : String → AuthDb → AuthDb
revoke_session = SessionRepository.delete

unfoldable pub revoke_all_sessions : String → AuthDb → AuthDb
revoke_all_sessions = SessionRepository.delete_all_for_user

-- with what the hook raises after the deletion has been committed
unfoldable pub delete_account : AuthService → String → AuthDb → Option String × AuthDb
delete_account service user_id db =
    (service.on_after_delete user_id, UserRepository.delete user_id db)

unfoldable pub change_password :
    AuthService → String → String → String → AuthDb → Result AuthDb × AuthDb
change_password service user_id identity_id new_password db =
    elim (service.hasher.hash new_password) [
      | none ↦ (raised invalid_password_error, db)
      | some hashed ↦
          let db' =
            SessionRepository.delete_all_for_user user_id
              (IdentityRepository.update_credential identity_id hashed db) in
          (ok db', db')
    ]
