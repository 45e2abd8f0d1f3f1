-- ===== src/Auth/Service/Authentication.antt =====
-- fieldpilot/auth/service.py: logging in, and the check of request headers.
use field_pilot_ai_submissio.Common.{
  ℕ, Option, none, some, Bool, true, List, [], ◌∷◌, String, text_equality, ◌==◌, if◌then◌else◌,
  ◌&&◌,
}
use field_pilot_ai_submissio.Common.Text.{strip}
use field_pilot_ai_submissio.Storage.Table
use field_pilot_ai_submissio.Auth.Validation.{
  role_value, invalid_credentials, not_authenticated, forbidden, Result, ok, raised, bearer_token,
  in_list,
}
use field_pilot_ai_submissio.Auth.Accounts.{
  ScryptParams, weaker_than, User, PublicUser, public_user, from_record, user_spec,
}
use field_pilot_ai_submissio.Auth.Service.State.{Config, Auth, Random, find_by_username_lower}
use field_pilot_ai_submissio.Auth.Service.Tokens.{open_session, resolve_token}

abbrev pub logged_in : ℕ → User → User
logged_in now u = record u { last_login_at = some now }

abbrev or_user : Option User → User → User
or_user none u = u
or_user (some v) u = v

abbrev pub allowed : List String → PublicUser → Bool
allowed [] u = true
allowed (r ∷ roles) u = in_list (role_value u.role) (r ∷ roles)

abbrev pub with_role : List String → Option PublicUser → Result PublicUser
with_role roles none = raised not_authenticated
with_role roles (some u) = if allowed roles u then ok u else raised forbidden

module _ (config : Config) (lower : String → String)
    (scrypt : ScryptParams → String → String → String) (sha : String → String) where
  abbrev pub upgraded : ℕ → Random → String → User → User
  upgraded now random password u = record u {
    password_hash = scrypt config.kdf password random.salt;
    salt = random.salt;
    kdf = "scrypt";
    params = config.kdf;
    updated_at = now;
  }

  -- `_maybe_upgrade`, on the table
  unfoldable pub maybe_upgrade : ℕ → Random → String → ScryptParams → User → List User → List User
  maybe_upgrade now random password params u users =
      if weaker_than params config.kdf
      then (Table.patch user_spec u.user_id (upgraded now random password) users).0
      else users

  -- What follows on the check of the credentials.
  unfoldable pub log_in :
      ℕ → Random → String → ScryptParams → User → Auth → Auth × (PublicUser × String)
  log_in now random password params u auth =
      let users = maybe_upgrade now random password params u auth.users in
      let patched = Table.patch user_spec u.user_id (logged_in now) users in
      (
        record {
          users = patched.0;
          sessions = open_session config lower scrypt sha now random u.user_id auth.sessions;
        },
        (public_user (or_user patched.1 u), random.token),
      )

  abbrev pub credentials_ok : ScryptParams → String → User → Bool
  credentials_ok params password u = scrypt params password u.salt == u.password_hash && u.active

  unfoldable pub authenticate_user :
      ℕ → Random → String → Option User → Auth → Auth × Result (PublicUser × String)
  authenticate_user now random password none auth = (auth, raised invalid_credentials)
  authenticate_user now random password (some u) auth = elim (from_record u) [
    | raised e ↦ (auth, raised e)
    | ok params ↦
        let done = log_in now random password params u auth in
        if credentials_ok params password u
        then (done.0, ok done.1)
        else (auth, raised invalid_credentials)
  ]

  unfoldable pub authenticate :
      ℕ → Random → String → String → Auth → Auth × Result (PublicUser × String)
  authenticate now random username password auth =
      authenticate_user now random password
        (find_by_username_lower (lower (strip username)) auth.users) auth

  unfoldable pub user_from_header : ℕ → Option String → List String → Auth → Result PublicUser
  user_from_header now authorization roles auth = elim (bearer_token lower authorization) [
    | none ↦ raised not_authenticated
    | some token ↦ with_role roles (resolve_token config lower scrypt sha now token auth)
  ]
