-- ===== src/Auth/Tables.antt =====
-- The repositories of blunder_tutor/auth/storage_sqlite/repository.py over the tables of schema.py, and the
-- transaction of db.py. A table is the list of its rows. No statement of the program writes
-- `deleted_at`, so the rows are without it.
pub mod UserRepository
pub mod IdentityRepository
pub mod SessionRepository
pub mod SetupRepository
pub mod Rows
use chess_blunder_trainer.Common.{
  ℕ, String, Bool, true, false, Option, none, some, List, [], ◌∷◌, ◌++◌, ◌==◌, ◌||◌, ◌&&◌, not,
  if◌then◌else◌, string_eq, keep, map, length, is_some, ltb,
}
use chess_blunder_trainer.Common.Dict.{Dict}
use chess_blunder_trainer.Auth.Types.{
  User, Identity, Session, AuthError, duplicate_username_error, duplicate_email_error,
  integrity_error, Result, ok, raised,
}

pub record AuthDb : Type 0 where
  pub users : List User
  pub identities : List Identity
  pub sessions : List Session
  pub setup : Dict String String

-- `SELECT … WHERE p` and `fetchone()`
unfoldable pub first {ℓ} : {A : Type ℓ} → (A → Bool) → List A → Option A
first p [] = none
first p (x ∷ xs) = if p x then some x else first p xs

-- a row for which the test holds exists
unfoldable pub exists_row {ℓ} : {A : Type ℓ} → (A → Bool) → List A → Bool
exists_row p [] = false
exists_row p (x ∷ xs) = p x || exists_row p xs

-- two values of a UNIQUE column; NULL is distinct from every value
unfoldable pub same_text : Option String → Option String → Bool
same_text (some a) (some b) = a == b
same_text none b = false
same_text (some a) none = false

-- `Email(email) if email else None`
unfoldable pub row_to_user : User → User
row_to_user u = record u {
  email = elim u.email [ none ↦ none | some e ↦ if e == "" then none else some e ];
}

unfoldable pub has_id : String → User → Bool
has_id id u = u.id == id

unfoldable pub has_username : String → User → Bool
has_username name u = u.username == name

unfoldable pub has_email : Option String → User → Bool
has_email email u = same_text u.email email

unfoldable pub has_subject : String → String → Identity → Bool
has_subject provider subject i = (i.provider == provider) && (i.provider_subject == subject)

unfoldable pub has_identity_id : String → Identity → Bool
has_identity_id id i = i.id == id

unfoldable pub has_token : String → Session → Bool
has_token token s = s.token == token

-- `transaction()`: commit, or roll back and raise again
unfoldable pub transaction : (AuthDb → Result AuthDb) → AuthDb → Result AuthDb × AuthDb
transaction body db = elim (body db) [ ok db' ↦ (ok db', db') | raised e ↦ (raised e, db) ]
