-- ===== src/Auth/Tables/SetupRepository.antt =====
-- SetupRepository of blunder_tutor/auth/storage_sqlite/repository.py.
use chess_blunder_trainer.Common.{String, Option, string_eq}
use chess_blunder_trainer.Common.Dict
use chess_blunder_trainer.Auth.Tables.{AuthDb}

unfoldable pub get_in_transaction : String → AuthDb → Option String
get_in_transaction key db = Dict.get db.setup key

unfoldable pub put : String → String → AuthDb → AuthDb
put key value db = record db { setup = Dict.put db.setup key value }

unfoldable pub delete_in_transaction : String → AuthDb → AuthDb
delete_in_transaction key db = record db { setup = Dict.remove db.setup key }
