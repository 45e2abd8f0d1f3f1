-- ===== src/Auth/Service/Registration.antt =====
-- fieldpilot/auth/service.py: the making, changing and deleting of accounts.
use field_pilot_ai_submissio.Common.{
  ℕ, Option, none, some, Bool, true, false, List, String, text_equality, if◌then◌else◌, ◌||◌, not,
  is_some,
}
use field_pilot_ai_submissio.Common.Text.{truthy}
use field_pilot_ai_submissio.Storage.Table
use field_pilot_ai_submissio.Auth.Validation.{
  Role, value_error, duplicate_user, Result, ok, raised, clean_username, clean_worker_id,
  clean_role, password_ok,
}
use field_pilot_ai_submissio.Auth.Accounts.{ScryptParams, User, PublicUser, public_user, user_spec}
use field_pilot_ai_submissio.Auth.Service.State.{
  Config, Auth, Random, find_by_username_lower, find_by_worker_id,
}
use field_pilot_ai_submissio.Auth.Service.Tokens.{revoke_user_sessions}

abbrev pub taken_id : Option String → List User → Bool
taken_id none users = false
taken_id (some id) users = is_some (find_by_worker_id id users)

abbrev pub with_active : ℕ → Bool → User → User
with_active now active u = record u { active = active; updated_at = now }

unfoldable pub set_active : ℕ → String → Bool → Auth → Auth × Option PublicUser
set_active now user active auth =
    let patched = Table.patch user_spec user (with_active now active) auth.users in
    elim patched.1 [
      | none ↦ (auth, none)
      | some u ↦ (
        record {
          users = patched.0;
          sessions =
              if active
              then auth.sessions
              else (revoke_user_sessions now u.user_id auth.sessions).0;
        },
        some (public_user u),
      )
    ]

unfoldable pub delete_user : ℕ → String → Auth → Auth × Bool
delete_user now user auth =
    let deleted = Table.delete user_spec user auth.users in
    (
      record { users = deleted.0; sessions = (revoke_user_sessions now user auth.sessions).0 },
      deleted.1,
    )

module _ (config : Config) (lower : String → String)
    (scrypt : ScryptParams → String → String → String) (sha : String → String) where
  abbrev pub new_user : ℕ → Random → String → Role → String → Option String → String → User
  new_user now random name role display id password = record {
    user_id = random.user_id;
    username = name;
    username_lower = lower name;
    role = role;
    display_name = if truthy display then display else name;
    worker_id = id;
    active = true;
    password_hash = scrypt config.kdf password random.salt;
    salt = random.salt;
    kdf = "scrypt";
    params = config.kdf;
    created_at = now;
    updated_at = now;
    password_changed_at = now;
    last_login_at = none;
  }

  -- The end of `create_user`, on arguments that passed the checks.
  unfoldable pub register :
      ℕ → Random → String → Role → String → Option String → String → Auth → Auth × Result PublicUser
  register now random name role display id password auth =
      let user = new_user now random name role display id password in
      if is_some (find_by_username_lower (lower name) auth.users) || taken_id id auth.users
      then (auth, raised duplicate_user)
      else (record auth { users = (Table.put user_spec user auth.users).0 }, ok (public_user user))

  unfoldable pub create_user :
      ℕ
      → Random
      → String
      → String
      → String
      → String
      → Option String
      → Auth
      → Auth × Result PublicUser
  create_user now random username password role display id auth = elim (clean_username username) [
    | none ↦ (auth, raised value_error)
    | some name ↦ elim (clean_role lower role) [
      | none ↦ (auth, raised value_error)
      | some parsed ↦
          if not (password_ok password)
          then (auth, raised value_error)
          else elim (clean_worker_id id) [
            | none ↦ (auth, raised value_error)
            | some wid ↦ register now random name parsed display wid password auth
          ]
    ]
  ]

  abbrev pub with_password : ℕ → Random → String → User → User
  with_password now random password u = record u {
    password_hash = scrypt config.kdf password random.salt;
    salt = random.salt;
    kdf = "scrypt";
    params = config.kdf;
    password_changed_at = now;
    updated_at = now;
  }

  unfoldable pub set_password : ℕ → Random → String → String → Auth → Auth × Result Bool
  set_password now random user password auth =
      if not (password_ok password)
      then (auth, raised value_error)
      else elim (Table.get user_spec user auth.users) [
        | none ↦ (auth, ok false)
        | some u ↦ (
          record {
            users =
                (Table.patch user_spec u.user_id (with_password now random password) auth.users).0;
            sessions = (revoke_user_sessions now u.user_id auth.sessions).0;
          },
          ok true,
        )
      ]
