-- ===== src/Auth/Service/Login.antt =====
-- blunder_tutor/auth/providers/credentials.py with blunder_tutor/auth/core/service.py: logins after a signup.
use chess_blunder_trainer.Common.{
  String, ◌≡◌, Bool, false, none, some, ◌==◌, if◌then◌else◌, string_eq, arith, eq_refl,
}
use chess_blunder_trainer.Auth.Types.{User, ok}
use chess_blunder_trainer.Auth.Tables.{AuthDb}
use chess_blunder_trainer.Auth.Tables.IdentityRepository
use chess_blunder_trainer.Auth.Service.{AuthService, SignupRequest, signup}
use chess_blunder_trainer.Auth.Tables.{has_subject, row_to_user}
use chess_blunder_trainer.Auth.Types.{credentials_provider_name}
use chess_blunder_trainer.Auth.Service.{user_of, identity_of}
use chess_blunder_trainer.Auth.Service.{
  hash_to_verify, verified_identity, lookup_name, credentials_authenticate, authenticate,
}
use chess_blunder_trainer.Auth.Service.Signup.{
  Inserted, signup-SignedUp, first_appended, get_by_id-Inserted,
}

-- `verify`, where a corrupt credential counts as a failure
unfoldable pub accepts : AuthService → String → String → Bool
accepts service password credential = elim (service.hasher.verify password credential) [
  | none ↦ false
  | some b ↦ b
]

get_by_provider_subject-Inserted :
    (r : SignupRequest) (credential : String) (db db' : AuthDb)
    → Inserted r credential db db'
    → IdentityRepository.get_by_provider_subject credentials_provider_name r.username db'
      ≡ some (identity_of r credential)
unfolding IdentityRepository.get_by_provider_subject has_subject identity_of
get_by_provider_subject-Inserted r credential db db' h =
    let found =
      first_appended (has_subject credentials_provider_name r.username) db.identities
        (identity_of r credential) h.new_subject (ground (arith, eq_refl r.username)) in
    ground (arith, h.identities, found)

authenticate-Inserted :
    (service : AuthService) (r : SignupRequest) (credential raw password : String) (db db' : AuthDb)
    → Inserted r credential db db'
    → (raw == "") ≡ false
    → (password == "") ≡ false
    → lookup_name service.rules raw ≡ r.username
    → authenticate service credentials_provider_name raw password db'
      ≡ (if accepts service password credential then some (row_to_user (user_of r)) else none)
unfolding authenticate credentials_authenticate hash_to_verify verified_identity identity_of accepts
authenticate-Inserted service r credential raw password db db' h nr np l = ground (
  arith,
  nr,
  np,
  l,
  get_by_provider_subject-Inserted r credential db db' h,
  get_by_id-Inserted r credential db db' h,
)

-- After a signup, a login with a text that is read as the same username, and with any password, gives
-- the new user exactly when the hasher accepts the password for the hash of the password of the
-- signup, and nobody otherwise.
pub signup_then_authenticate :
    (service : AuthService) (r : SignupRequest) (db db' : AuthDb) (u : User)
    (credential raw password : String)
    → signup service r db ≡ (ok u, db')
    → service.hasher.hash r.password ≡ some credential
    → (raw == "") ≡ false
    → (password == "") ≡ false
    → lookup_name service.rules raw ≡ r.username
    → authenticate service credentials_provider_name raw password db'
      ≡ (if accepts service password credential then some u else none)
signup_then_authenticate service r db db' u credential raw password e p nr np l =
    let done = signup-SignedUp service r db db' u e in
    let same_hash : credential ≡ done.credential = ground (arith, p, done.hashed) in
    rw (done.user, same_hash)
      (authenticate-Inserted service r done.credential raw password
        (record db { setup = done.invited.setup }) db' done.inserted nr np l)
