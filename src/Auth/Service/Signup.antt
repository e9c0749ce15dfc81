-- ===== src/Auth/Service/Signup.antt =====
-- The outcomes of a signup in blunder_tutor/auth/core/service.py.
use chess_blunder_trainer.Common.{
  ℕ, String, ◌≡◌, refl, ap, sym, Bool, true, false, Option, none, some, List, [], ◌∷◌, ◌++◌,
  string_eq, arith, inl, inr, ◌⊎◌, Option-cases, eq_refl,
}
use mathlib.Core.Path.{subst}
use chess_blunder_trainer.Auth.Types.{
  invalid_password_error, hook_error, User, AuthError, Result, ok, raised,
}
use chess_blunder_trainer.Auth.Tables.{AuthDb, first}
use chess_blunder_trainer.Auth.Tables.UserRepository
use chess_blunder_trainer.Auth.Tables.IdentityRepository
use chess_blunder_trainer.Auth.Tables.SetupRepository
use chess_blunder_trainer.Auth.Policies.{
  InvitePolicy, hmac_invite_policy, open_signup, consume, redeem, allow_signup,
}
use chess_blunder_trainer.Auth.Service.{
  AuthService, SignupRequest, and_then, insert_user_with_credential, signup_body,
  finalize_registration, signup,
}
use chess_blunder_trainer.Auth.Tables.{exists_row, has_id, has_username, has_subject, row_to_user}
use chess_blunder_trainer.Auth.Types.{credentials_provider_name}
use chess_blunder_trainer.Auth.Service.{user_of, identity_of}
use chess_blunder_trainer.Auth.Service.Runs.{signup_body-ok, transaction-cases}

-- the rows that a registration adds
pub record Inserted (r : SignupRequest) (credential : String) (db db' : AuthDb) : Type 0 where
  pub new_id : exists_row (has_id r.user_id) db.users ≡ false
  pub new_username : exists_row (has_username r.username) db.users ≡ false
  pub new_subject :
      exists_row (has_subject credentials_provider_name r.username) db.identities ≡ false
  pub users : db'.users ≡ db.users ++ user_of r ∷ []
  pub identities : db'.identities ≡ db.identities ++ identity_of r credential ∷ []
  pub sessions : db'.sessions ≡ db.sessions
  pub setup : db'.setup ≡ db.setup

pub insert-Inserted :
    (r : SignupRequest) (credential : String) (db db' : AuthDb)
    → insert_user_with_credential r credential db ≡ ok db'
    → Inserted r credential db db'
unfolding insert_user_with_credential UserRepository.insert_in_transaction
    IdentityRepository.insert_in_transaction and_then user_of identity_of
insert-Inserted r credential db db' e = record {
  new_id = ground (arith, e);
  new_username = ground (arith, e);
  new_subject = ground (arith, e);
  users = ground (arith, e);
  identities = ground (arith, e);
  sessions = ground (arith, e);
  setup = ground (arith, e);
}

consume-db :
    (policy : InvitePolicy) (code : Option String) (n : ℕ) (db d : AuthDb)
    → consume policy code n db ≡ ok d
    → d ≡ record db { setup = d.setup }
unfolding consume redeem SetupRepository.delete_in_transaction
consume-db hmac_invite_policy none n db d e = ground (arith, e)
consume-db hmac_invite_policy (some code) n db d e = ground (arith, e)
consume-db open_signup code n db d e = ground (arith, e)

pub first_appended :
    {A : Type 0} (p : A → Bool) (xs : List A) (x : A)
    → exists_row p xs ≡ false
    → p x ≡ true
    → first p (xs ++ x ∷ []) ≡ some x
unfolding first exists_row
first_appended p [] x n y = ground (arith, y)
first_appended p (z ∷ zs) x n y = ground (arith, n, first_appended p zs x, y)

pub get_by_id-Inserted :
    (r : SignupRequest) (credential : String) (db db' : AuthDb)
    → Inserted r credential db db'
    → UserRepository.get_by_id r.user_id db' ≡ some (row_to_user (user_of r))
unfolding UserRepository.get_by_id has_id user_of
get_by_id-Inserted r credential db db' h =
    let found =
      first_appended (has_id r.user_id) db.users (user_of r) h.new_id (eq_refl r.user_id) in
    ground (arith, h.users, found)

-- what a signup that succeeds has done
pub record SignedUp (service : AuthService) (r : SignupRequest) (db : AuthDb) (u : User)
    (db' : AuthDb) : Type 0 where
  pub credential : String
  pub hashed : service.hasher.hash r.password ≡ some credential
  pub allowed : allow_signup service.quota (UserRepository.count db) ≡ true
  pub user : u ≡ row_to_user (user_of r)
  pub invited : AuthDb
  pub consumed :
      consume service.invite_policy r.invite_code (UserRepository.count db) db ≡ ok invited
  pub inserted : Inserted r credential (record db { setup = invited.setup }) db'

body-SignedUp :
    (service : AuthService) (r : SignupRequest) (credential : String) (db db' : AuthDb)
    → service.hasher.hash r.password ≡ some credential
    → signup_body service r credential db ≡ ok db'
    → SignedUp service r db (row_to_user (user_of r)) db'
body-SignedUp service r credential db db' p e =
    let (d, allowed, c, i) = signup_body-ok service r credential db db' e in
    record {
      credential = credential;
      hashed = p;
      allowed = allowed;
      user = refl;
      invited = d;
      consumed = c;
      inserted =
          subst (λ x. Inserted r credential x db')
            (consume-db service.invite_policy r.invite_code (UserRepository.count db) db d c)
            (insert-Inserted r credential d db' i);
    }

-- how a signup ends once its rows are there: with the user, or with what the hook raises
abbrev pub IsFinished : AuthService → User → AuthDb → Result User × AuthDb → Type 0
IsFinished service u db' result =
    ((service.on_after_register u ≡ none) × (result ≡ (ok u, db')))
    ⊎ ((text : String) × (service.on_after_register u ≡ some text)
        × (result ≡ (raised (hook_error text), db')))

finalize_registration-IsFinished :
    (service : AuthService) (user_id : String) (committed db : AuthDb) (u : User)
    → UserRepository.get_by_id user_id db ≡ some u
    → IsFinished service u db (finalize_registration service user_id (ok committed, db))
unfolding finalize_registration
finalize_registration-IsFinished service user_id committed db u e =
    elim (Option-cases (service.on_after_register u)) [
      | inl quiet ↦ inl (quiet, ground (arith, e, quiet))
      | inr (text, fails) ↦ inr (text, fails, ground (arith, e, fails))
    ]

-- A signup that does not get through raises and leaves the database as it was. One that gets through has passed the
-- quota and the invite, found its id, its name and its subject new, and added its user and identity at once; it
-- gives the user, unless the hook after the registration raises: then the signup raises that, and the rows stay.
pub signup_all_or_nothing :
    (service : AuthService) (r : SignupRequest) (db : AuthDb)
    → ((e : AuthError) × (signup service r db ≡ (raised e, db)))
      ⊎ ((u : User) × (db' : AuthDb) × SignedUp service r db u db'
          × IsFinished service u db' (signup service r db))
unfolding signup finalize_registration
signup_all_or_nothing service r db = elim (Option-cases (service.hasher.hash r.password)) [
  | inl p ↦ inl (invalid_password_error, rw (p, signup) refl)
  | inr (c, p) ↦ elim (transaction-cases (signup_body service r c) db) [
    | inr (e, q, t) ↦ inl (e, rw (p, signup, t) refl)
    | inl (d, q, t) ↦
        let done = body-SignedUp service r c db d p q in
        let found =
          get_by_id-Inserted r done.credential (record db { setup = done.invited.setup }) d
            done.inserted in
        inr (
          row_to_user (user_of r),
          d,
          done,
          rw (p, signup, t)
              (finalize_registration-IsFinished service r.user_id d d (row_to_user (user_of r))
                found),
        )
  ]
]

pub ok_parts :
    {u v : User} {d d' : AuthDb} (x : Result User × AuthDb)
    → x ≡ (ok u, d)
    → x ≡ (ok v, d')
    → (u ≡ v) × (d ≡ d')
ok_parts x p q = ground (arith, p, q)

pub signup-SignedUp :
    (service : AuthService) (r : SignupRequest) (db db' : AuthDb) (u : User)
    → signup service r db ≡ (ok u, db')
    → SignedUp service r db u db'
signup-SignedUp service r db db' u e = elim (signup_all_or_nothing service r db) [
  | inl (x, q) ↦ cc (e, q)
  | inr (v, d, done, finished) ↦ elim finished [
    | inl (quiet, q) ↦
        let (same_user, same_db) = ok_parts (signup service r db) q e in
        subst (λ w. SignedUp service r db w db') same_user
          (subst (λ x. SignedUp service r db v x) same_db done)
    | inr (text, fails, q) ↦ cc (e, q)
  ]
]

-- the database after a signup
pub db-signup :
    (service : AuthService) (r : SignupRequest) (db : AuthDb)
    → ((signup service r db).1 ≡ db)
      ⊎ ((u : User) × SignedUp service r db u (signup service r db).1)
db-signup service r db = elim (signup_all_or_nothing service r db) [
  | inl (x, q) ↦ inl (ap (λ x. x.1) q)
  | inr (u, d, done, finished) ↦ elim finished [
    | inl (quiet, q) ↦ inr (u, subst (λ x. SignedUp service r db u x) (ap (λ x. x.1) (sym q)) done)
    | inr (text, fails, q) ↦
        inr (u, subst (λ x. SignedUp service r db u x) (ap (λ x. x.1) (sym q)) done)
  ]
]
