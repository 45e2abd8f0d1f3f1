-- ===== src/Auth/Service/State.antt =====
-- fieldpilot/auth/service.py: the state of AuthService, and the lookups of accounts.
use field_pilot_ai_submissio.Common.{
  ℕ, Option, none, some, Bool, true, false, List, [], ◌∷◌, map, String, text_equality, ◌==◌,
  if◌then◌else◌,
}
use field_pilot_ai_submissio.Common.Text.{strip, truthy}
use field_pilot_ai_submissio.Storage.Table
use field_pilot_ai_submissio.Auth.Accounts.{
  ScryptParams, User, PublicUser, public_user, Session, user_spec,
}

pub record Config : Type 0 where
  pub token_ttl : ℕ
  pub kdf : ScryptParams

pub record Auth : Type 0 where
  pub users : List User
  pub sessions : List Session

-- What an operation draws from `secrets` and `uuid`.
pub record Random : Type 0 where
  pub user_id : String
  pub salt : String
  pub token : String
  pub session_id : String

abbrev pub head : {A : Type 0} → List A → Option A
head [] = none
head (x ∷ xs) = some x

abbrev pub public_of : Option User → Option PublicUser
public_of none = none
public_of (some u) = some (public_user u)

abbrev pub same_id : String → Option String → Bool
same_id w none = false
same_id w (some v) = v == w

unfoldable pub find_by_username_lower : String → List User → Option User
find_by_username_lower lower users =
    if truthy lower
    then head (Table.select user_spec (λ u. u.username_lower == lower) 2 true users)
    else none

unfoldable pub find_by_worker_id : String → List User → Option User
find_by_worker_id id users =
    if truthy id
    then head (Table.select user_spec (λ u. same_id id u.worker_id) 2 true users)
    else none

unfoldable pub list_users : Auth → List PublicUser
list_users auth = map public_user (Table.select user_spec (λ u. true) 1000 false auth.users)

unfoldable pub get_user : String → Auth → Option PublicUser
get_user id auth = if truthy id then public_of (Table.get user_spec id auth.users) else none

unfoldable pub get_by_worker_id : String → Auth → Option PublicUser
get_by_worker_id id auth =
    if truthy (strip id) then public_of (find_by_worker_id (strip id) auth.users) else none

module _ (config : Config) (lower : String → String)
    (scrypt : ScryptParams → String → String → String) (sha : String → String) where
  unfoldable pub get_by_username : String → Auth → Option PublicUser
  get_by_username username auth =
      public_of (find_by_username_lower (lower (strip username)) auth.users)
