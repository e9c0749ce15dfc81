-- ===== src/Auth/Policies.antt =====
-- blunder_tutor/auth/core/policies.py: who may sign up.
use chess_blunder_trainer.Common.{
  ℕ, String, Bool, true, Option, none, some, ◌==◌, not, if◌then◌else◌, string_eq, ltb,
}
use chess_blunder_trainer.Auth.Types.{invalid_invite_code_error, Result, ok, raised}
use chess_blunder_trainer.Auth.Tables.{AuthDb}
use chess_blunder_trainer.Auth.Tables.SetupRepository

abbrev pub invite_code_setup_key : String
invite_code_setup_key = "invite_code"

pub data QuotaPolicy : Type 0 where
  max_users_quota : ℕ → QuotaPolicy
  no_quota : QuotaPolicy

unfoldable pub allow_signup : QuotaPolicy → ℕ → Bool
allow_signup (max_users_quota max_users) current_count = ltb current_count max_users
allow_signup no_quota current_count = true

pub data InvitePolicy : Type 0 where
  hmac_invite_policy open_signup : InvitePolicy

-- the code against the stored one; a missing and an empty code are alike
unfoldable pub redeem : String → AuthDb → Result AuthDb
redeem code db = elim (SetupRepository.get_in_transaction invite_code_setup_key db) [
  | none ↦ raised (invalid_invite_code_error "not_issued")
  | some stored ↦
      if not (code == stored)
      then raised (invalid_invite_code_error "rotated")
      else ok (SetupRepository.delete_in_transaction invite_code_setup_key db)
]

unfoldable pub consume : InvitePolicy → Option String → ℕ → AuthDb → Result AuthDb
consume open_signup code user_count db = ok db
consume hmac_invite_policy none user_count db =
    if ltb 0 user_count then ok db else raised (invalid_invite_code_error "missing")
consume hmac_invite_policy (some code) user_count db =
    if ltb 0 user_count
    then ok db
    else if code == ""
    then raised (invalid_invite_code_error "missing")
    else redeem code db
