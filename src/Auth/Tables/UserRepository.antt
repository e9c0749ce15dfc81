-- ===== src/Auth/Tables/UserRepository.antt =====
-- UserRepository of blunder_tutor/auth/storage_sqlite/repository.py.
use chess_blunder_trainer.Common.{
  ℕ, String, Option, none, some, [], ◌∷◌, ◌++◌, ◌==◌, not, if◌then◌else◌, string_eq, keep, length,
}
use chess_blunder_trainer.Auth.Types.{
  User, duplicate_username_error, duplicate_email_error, integrity_error, Result, ok, raised,
}
use chess_blunder_trainer.Auth.Tables.{
  AuthDb, first, exists_row, row_to_user, has_id, has_username, has_email,
}

-- `INSERT INTO users` with `_translate_integrity_error` of blunder_tutor/auth/core/service.py: the UNIQUE constraint that
-- fails names the column, and a taken key stays an `integrity_error`
unfoldable pub insert_in_transaction : User → AuthDb → Result AuthDb
insert_in_transaction u db =
    if exists_row (has_id u.id) db.users
    then raised integrity_error
    else if exists_row (has_username u.username) db.users
    then raised (duplicate_username_error u.username)
    else if exists_row (has_email u.email) db.users
    then raised (duplicate_email_error (elim u.email [ none ↦ "" | some e ↦ e ]))
    else ok (record db { users = db.users ++ u ∷ [] })

unfoldable pub get_by_id : String → AuthDb → Option User
get_by_id id db = elim (first (has_id id) db.users) [ none ↦ none | some u ↦ some (row_to_user u) ]

unfoldable pub count : AuthDb → ℕ
count db = length db.users

-- ON DELETE CASCADE takes the identities and the sessions of the user
unfoldable pub delete : String → AuthDb → AuthDb
delete id db = record db {
  users = keep (λ u. not (u.id == id)) db.users;
  identities = keep (λ i. not (i.user_id == id)) db.identities;
  sessions = keep (λ s. not (s.user_id == id)) db.sessions;
}
