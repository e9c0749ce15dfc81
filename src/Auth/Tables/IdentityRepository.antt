-- ===== src/Auth/Tables/IdentityRepository.antt =====
-- IdentityRepository of blunder_tutor/auth/storage_sqlite/repository.py.
use chess_blunder_trainer.Common.{
  String, Option, some, [], ◌∷◌, ◌++◌, ◌||◌, not, if◌then◌else◌, string_eq, map,
}
use chess_blunder_trainer.Auth.Types.{Identity, integrity_error, Result, ok, raised}
use chess_blunder_trainer.Auth.Tables.{
  AuthDb, first, exists_row, has_id, has_subject, has_identity_id,
}

unfoldable pub insert_in_transaction : Identity → AuthDb → Result AuthDb
insert_in_transaction i db =
    if exists_row (has_identity_id i.id) db.identities
      || exists_row (has_subject i.provider i.provider_subject) db.identities
      || not (exists_row (has_id i.user_id) db.users)
    then raised integrity_error
    else ok (record db { identities = db.identities ++ i ∷ [] })

unfoldable pub get_by_provider_subject : String → String → AuthDb → Option Identity
get_by_provider_subject provider subject db = first (has_subject provider subject) db.identities

unfoldable pub update_credential : String → String → AuthDb → AuthDb
update_credential id hashed db = record db {
  identities =
      map (λ i. if has_identity_id id i then record i { credential = some hashed } else i)
        db.identities;
}
