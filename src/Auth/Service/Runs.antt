-- ===== src/Auth/Service/Runs.antt =====
-- The operations of blunder_tutor/auth/core/service.py as steps, and what they do to the tables.
use chess_blunder_trainer.Common.{
  ℕ, String, ◌≡◌, refl, ap, ◌∙◌, true, Option, none, some, List, [], ◌∷◌, string_eq, arith,
  Bool-cases, inl, inr, ◌⊎◌, Option-cases,
}
use chess_blunder_trainer.Auth.Types.{AuthError, Result, ok, raised, Result-cases}
use chess_blunder_trainer.Auth.Tables.{AuthDb, transaction}
use chess_blunder_trainer.Auth.Tables.UserRepository
use chess_blunder_trainer.Auth.Tables.IdentityRepository
use chess_blunder_trainer.Auth.Tables.SetupRepository
use chess_blunder_trainer.Auth.Policies.{
  InvitePolicy, hmac_invite_policy, open_signup, consume, redeem, allow_signup,
}
use chess_blunder_trainer.Auth.Service.{
  AuthService, SignupRequest, and_then, insert_user_with_credential, signup_body,
  finalize_registration, register, signup, create_session, resolve_session, revoke_session,
  revoke_all_sessions, delete_account, change_password,
}

pub data Op : Type 0 where
  do_register do_signup : SignupRequest → Op
  do_create_session : String → String → Option String → Option String → ℕ → Op
  do_resolve : ℕ → String → Op
  do_revoke do_revoke_all do_delete : String → Op
  do_change_password : String → String → String → Op

unfoldable pub step : AuthService → Op → AuthDb → AuthDb
step service (do_register r) db = (register service r db).1
step service (do_signup r) db = (signup service r db).1
step service (do_create_session token user_id ua ip now) db =
    (create_session service token user_id ua ip now db).1
step service (do_resolve now token) db = (resolve_session service now token db).1
step service (do_revoke token) db = revoke_session token db
step service (do_revoke_all user_id) db = revoke_all_sessions user_id db
step service (do_delete user_id) db = (delete_account service user_id db).1
step service (do_change_password user_id identity_id pw) db =
    (change_password service user_id identity_id pw db).1

unfoldable pub run : AuthService → List Op → AuthDb → AuthDb
run service [] db = db
run service (o ∷ os) db = run service os (step service o db)

-- a registration leaves the sessions alone
pub sessions-insert_user_with_credential :
    (r : SignupRequest) (credential : String) (db db' : AuthDb)
    → insert_user_with_credential r credential db ≡ ok db'
    → db'.sessions ≡ db.sessions
unfolding insert_user_with_credential UserRepository.insert_in_transaction
    IdentityRepository.insert_in_transaction and_then
sessions-insert_user_with_credential r credential db db' e = ground (arith, e)

sessions-consume :
    (policy : InvitePolicy) (code : Option String) (n : ℕ) (db db' : AuthDb)
    → consume policy code n db ≡ ok db'
    → db'.sessions ≡ db.sessions
unfolding consume redeem SetupRepository.delete_in_transaction
sessions-consume hmac_invite_policy none n db db' e = ground (arith, e)
sessions-consume hmac_invite_policy (some code) n db db' e = ground (arith, e)
sessions-consume open_signup code n db db' e = ground (arith, e)

pub and_then-ok :
    (x : Result AuthDb) (f : AuthDb → Result AuthDb) (db' : AuthDb)
    → and_then x f ≡ ok db'
    → (d : AuthDb) × (x ≡ ok d) × (f d ≡ ok db')
unfolding and_then
and_then-ok (ok d) f db' e = (d, refl, e)
and_then-ok (raised x) f db' e = cc

-- what a signup that succeeds went through
pub signup_body-ok :
    (service : AuthService) (r : SignupRequest) (credential : String) (db db' : AuthDb)
    → signup_body service r credential db ≡ ok db'
    → (d : AuthDb) × (allow_signup service.quota (UserRepository.count db) ≡ true)
      × (consume service.invite_policy r.invite_code (UserRepository.count db) db ≡ ok d)
      × (insert_user_with_credential r credential d ≡ ok db')
unfolding signup_body
signup_body-ok service r credential db db' e =
    elim (Bool-cases (allow_signup service.quota (UserRepository.count db))) [
      | inl allowed ↦
          let (d, c, i) =
            and_then-ok (consume service.invite_policy r.invite_code (UserRepository.count db) db)
              (insert_user_with_credential r credential) db' (ground (arith, e, allowed)) in
          (d, allowed, c, i)
      | inr full ↦ ground (arith, e, full)
    ]

sessions-signup_body :
    (service : AuthService) (r : SignupRequest) (credential : String) (db db' : AuthDb)
    → signup_body service r credential db ≡ ok db'
    → db'.sessions ≡ db.sessions
sessions-signup_body service r credential db db' e =
    let (d, allowed, c, i) = signup_body-ok service r credential db db' e in
    sessions-insert_user_with_credential r credential d db' i
    ∙ sessions-consume service.invite_policy r.invite_code (UserRepository.count db) db d c

pub transaction-cases :
    (body : AuthDb → Result AuthDb) (db : AuthDb)
    → ((d : AuthDb) × (body db ≡ ok d) × (transaction body db ≡ (ok d, d)))
      ⊎ ((e : AuthError) × (body db ≡ raised e) × (transaction body db ≡ (raised e, db)))
unfolding transaction
transaction-cases body db = elim (Result-cases (body db)) [
  | inl (d, p) ↦ inl (d, p, rw (p, transaction) refl)
  | inr (e, p) ↦ inr (e, p, rw (p, transaction) refl)
]

pub finalize_registration-db :
    (service : AuthService) (user_id : String) (x : Result AuthDb) (db : AuthDb)
    → (finalize_registration service user_id (x, db)).1 ≡ db
unfolding finalize_registration
finalize_registration-db service user_id (raised e) db = refl
finalize_registration-db service user_id (ok d) db = ground arith

-- what a transaction keeps is what its body keeps
pub register_in-keeps {ℓ} :
    {B : Type ℓ} (f : AuthDb → B) (service : AuthService) (body : AuthDb → Result AuthDb)
    (user_id : String) (db : AuthDb)
    → ((d : AuthDb) → body db ≡ ok d → f d ≡ f db)
    → f (finalize_registration service user_id (transaction body db)).1 ≡ f db
register_in-keeps f service body user_id db h = elim (transaction-cases body db) [
  | inl (d, p, q) ↦ ap f (rw q (finalize_registration-db service user_id (ok d) d)) ∙ h d p
  | inr (e, p, q) ↦ ap f (rw q (finalize_registration-db service user_id (raised e) db))
]

pub sessions-register :
    (service : AuthService) (r : SignupRequest) (db : AuthDb)
    → (register service r db).1.sessions ≡ db.sessions
unfolding register
sessions-register service r db = elim (Option-cases (service.hasher.hash r.password)) [
  | inl p ↦ rw (p, register) refl
  | inr (c, p) ↦
      rw (p, register)
        (register_in-keeps (λ d. d.sessions) service (insert_user_with_credential r c) r.user_id db
          (λ d e. sessions-insert_user_with_credential r c db d e))
]

pub sessions-signup :
    (service : AuthService) (r : SignupRequest) (db : AuthDb)
    → (signup service r db).1.sessions ≡ db.sessions
unfolding signup
sessions-signup service r db = elim (Option-cases (service.hasher.hash r.password)) [
  | inl p ↦ rw (p, signup) refl
  | inr (c, p) ↦
      rw (p, signup)
        (register_in-keeps (λ d. d.sessions) service (signup_body service r c) r.user_id db
          (λ d e. sessions-signup_body service r c db d e))
]
