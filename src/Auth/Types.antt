-- ===== src/Auth/Types.antt =====
-- blunder_tutor/auth/core/types.py, blunder_tutor/auth/core/errors.py and the hasher protocol of blunder_tutor/auth/core/protocols.py. A time
-- is a number of microseconds.
use chess_blunder_trainer.Common.{
  ℕ, String, ◌≡◌, Bool, true, false, Option, none, some, ltb, ◌||◌, not, if◌then◌else◌, refl, ◌⊎◌,
  inl, inr,
}

pub record User : Type 0 where
  pub id : String
  pub username : String
  pub email : Option String
  pub created_at : ℕ

pub record Identity : Type 0 where
  pub id : String
  pub user_id : String
  pub provider : String
  pub provider_subject : String
  pub credential : Option String
  pub created_at : ℕ

pub record Session : Type 0 where
  pub token : String
  pub user_id : String
  pub created_at : ℕ
  pub expires_at : ℕ
  pub last_seen_at : ℕ
  pub user_agent : Option String
  pub ip_address : Option String

pub record UserContext : Type 0 where
  pub user_id : String
  pub username : String
  pub session_token : Option String

abbrev pub credentials_provider_name : String
credentials_provider_name = "credentials"

-- the domain errors, any `IntegrityError` that is not translated into one, a failed `assert`, and what the hook after a
-- registration raises
pub data AuthError : Type 0 where
  duplicate_username_error : String → AuthError
  duplicate_email_error : String → AuthError
  invalid_invite_code_error : String → AuthError
  hook_error : String → AuthError
  invalid_password_error user_cap_reached_error integrity_error assertion_error : AuthError

pub data Result {ℓ} (A : Type ℓ) : Type ℓ where
  ok : A → Result A
  raised : AuthError → Result A

abbrev pub is_ok {ℓ} : {A : Type ℓ} → Result A → Bool
is_ok (ok a) = true
is_ok (raised e) = false

pub Result-cases {ℓ} :
    {A : Type ℓ} (r : Result A) → ((a : A) × (r ≡ ok a)) ⊎ ((e : AuthError) × (r ≡ raised e))
Result-cases (ok a) = inl (a, refl)
Result-cases (raised e) = inr (e, refl)

-- `hash` raises InvalidPasswordError (`none`); `verify` raises CorruptCredentialError (`none`)
pub record PasswordHasher : Type 0 where
  pub hash : String → Option String
  pub verify : String → String → Option Bool
  pub dummy_hash : String

-- `strip_lower` is `raw.strip().lower()`, and the regular expressions are tests
pub record ValidationRules : Type 0 where
  pub strip_lower : String → String
  pub username_re : String → Bool
  pub email_re : String → Bool
  pub text_length : String → ℕ
  pub byte_length : String → ℕ
  pub password_min : ℕ
  pub password_max_bytes : ℕ
  pub email_max_len : ℕ

unfoldable pub make_username : ValidationRules → String → Option String
make_username rules raw =
    if not (rules.username_re (rules.strip_lower raw)) then none else some (rules.strip_lower raw)

unfoldable pub make_email : ValidationRules → String → Option String
make_email rules raw =
    if ltb rules.email_max_len (rules.text_length (rules.strip_lower raw))
      || not (rules.email_re (rules.strip_lower raw))
    then none
    else some (rules.strip_lower raw)

-- the bytes are not read further, so the text stands for them
unfoldable pub password_bytes : ValidationRules → String → Option String
password_bytes rules raw =
    if ltb (rules.byte_length raw) rules.password_min
      || ltb rules.password_max_bytes (rules.byte_length raw)
    then none
    else some raw
