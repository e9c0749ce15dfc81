-- ===== src/Auth/Service/Invite.antt =====
-- The invite of blunder_tutor/auth/core/policies.py in the signup of blunder_tutor/auth/core/service.py.
use chess_blunder_trainer.Common.{
  ℕ, String, ◌≡◌, refl, Option, none, some, [], string_eq, arith, length, inl, inr, Option-cases,
  eq_refl,
}
use mathlib.Core.Path.{subst}
use chess_blunder_trainer.Auth.Types.{User, ok}
use chess_blunder_trainer.Auth.Tables.{AuthDb}
use chess_blunder_trainer.Auth.Tables.UserRepository
use chess_blunder_trainer.Auth.Tables.SetupRepository
use chess_blunder_trainer.Auth.Policies.{hmac_invite_policy, consume, redeem}
use chess_blunder_trainer.Auth.Service.{AuthService, SignupRequest, signup}
use chess_blunder_trainer.Common.Dict
use chess_blunder_trainer.Common.Dict.{get-remove}
use chess_blunder_trainer.Auth.Policies.{invite_code_setup_key}
use chess_blunder_trainer.Auth.Service.Signup.{signup-SignedUp}

redeem-ok :
    (code : String) (db d : AuthDb)
    → redeem code db ≡ ok d
    → (Dict.get db.setup invite_code_setup_key ≡ some code)
      × (Dict.get d.setup invite_code_setup_key ≡ none)
unfolding redeem SetupRepository.get_in_transaction SetupRepository.delete_in_transaction
redeem-ok code db d e = elim (Option-cases (Dict.get db.setup invite_code_setup_key)) [
  | inl p ↦ ground (arith, e, p)
  | inr (stored, p) ↦ (
    ground (arith, e, p, string_eq.beq_iff code stored),
    ground (
      arith,
      e,
      p,
      get-remove db.setup invite_code_setup_key invite_code_setup_key,
      eq_refl invite_code_setup_key,
    ),
  )
]

consume-ok :
    (code : Option String) (n : ℕ) (db d : AuthDb)
    → n ≡ 0
    → consume hmac_invite_policy code n db ≡ ok d
    → (c : String) × (code ≡ some c)
      × (Dict.get db.setup invite_code_setup_key ≡ some c)
      × (Dict.get d.setup invite_code_setup_key ≡ none)
unfolding consume
consume-ok none n db d z e = ground (arith, e, z)
consume-ok (some c) n db d z e =
    let (stored, gone) = redeem-ok c db d (ground (arith, e, z)) in (c, refl, stored, gone)

-- With the invite policy, the first user signs up with the stored code only, and the code is then
-- no longer stored.
pub invite_gates_first_user :
    (service : AuthService) (r : SignupRequest) (db db' : AuthDb) (u : User)
    → service.invite_policy ≡ hmac_invite_policy
    → db.users ≡ []
    → signup service r db ≡ (ok u, db')
    → (code : String) × (r.invite_code ≡ some code)
      × (Dict.get db.setup invite_code_setup_key ≡ some code)
      × (Dict.get db'.setup invite_code_setup_key ≡ none)
unfolding UserRepository.count
invite_gates_first_user service r db db' u pol empty e =
    let done = signup-SignedUp service r db db' u e in
    let (c, given, stored, gone) =
      consume-ok r.invite_code (length db.users) db done.invited (ground (arith, empty)) (
        subst
          (λ policy. consume policy r.invite_code (UserRepository.count db) db ≡ ok done.invited)
          pol done.consumed) in
    (c, given, stored, rw (done.inserted.setup) gone)
