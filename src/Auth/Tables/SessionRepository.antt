-- ===== src/Auth/Tables/SessionRepository.antt =====
-- SessionRepository of blunder_tutor/auth/storage_sqlite/repository.py.
use chess_blunder_trainer.Common.{
  ℕ, String, Option, [], ◌∷◌, ◌++◌, ◌==◌, ◌||◌, not, if◌then◌else◌, string_eq, keep, map, ltb,
}
use chess_blunder_trainer.Auth.Types.{Session, integrity_error, Result, ok, raised}
use chess_blunder_trainer.Auth.Tables.{AuthDb, first, exists_row, has_id, has_token}

unfoldable pub insert : Session → AuthDb → Result AuthDb
insert s db =
    if exists_row (has_token s.token) db.sessions || not (exists_row (has_id s.user_id) db.users)
    then raised integrity_error
    else ok (record db { sessions = db.sessions ++ s ∷ [] })

unfoldable pub get : String → AuthDb → Option Session
get token db = first (has_token token) db.sessions

unfoldable pub bump_last_seen : ℕ → String → AuthDb → AuthDb
bump_last_seen now token db = record db {
  sessions =
      map (λ s. if has_token token s then record s { last_seen_at = now } else s) db.sessions;
}

unfoldable pub delete : String → AuthDb → AuthDb
delete token db = record db { sessions = keep (λ s. not (has_token token s)) db.sessions }

unfoldable pub delete_all_for_user : String → AuthDb → AuthDb
delete_all_for_user id db = record db { sessions = keep (λ s. not (s.user_id == id)) db.sessions }

-- the times are compared as texts of one format, which is the order of the times
unfoldable pub delete_expired : ℕ → AuthDb → AuthDb
delete_expired as_of db = record db {
  sessions = keep (λ s. not (ltb s.expires_at as_of)) db.sessions;
}
