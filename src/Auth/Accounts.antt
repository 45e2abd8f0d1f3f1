-- ===== src/Auth/Accounts.antt =====
-- fieldpilot/auth/service.py: the records of users and sessions, and the cost parameters of the hash.
use field_pilot_ai_submissio.Common.{
  ℕ, refl, Option, Bool, true, false, String, text_equality, number_equality, ◌==◌, ltb,
  if◌then◌else◌, ◌&&◌, ◌||◌,
}
use field_pilot_ai_submissio.Storage.Table.{Spec}
use field_pilot_ai_submissio.Auth.Validation.{Role, Result, ok, raised, auth_error}
use Prim.Native.Nat.{Ordering}
use Prim.Native.String.{compare as compare_text}

pub record ScryptParams : Type 0 where
  pub n : ℕ
  pub r : ℕ
  pub p : ℕ
  pub dklen : ℕ

abbrev pub default_params : ScryptParams
default_params = record { n = 32768; r = 8; p = 1; dklen = 32 }

-- The order of tuples.
unfoldable pub weaker_than : ScryptParams → ScryptParams → Bool
weaker_than a b =
    ltb a.n b.n
    || (a.n == b.n
        && (ltb a.r b.r || (a.r == b.r && (ltb a.p b.p || (a.p == b.p && ltb a.dklen b.dklen)))))

pub record User : Type 0 where
  pub user_id : String
  pub username : String
  pub username_lower : String
  pub role : Role
  pub display_name : String
  pub worker_id : Option String
  pub active : Bool
  pub password_hash : String
  pub salt : String
  pub kdf : String
  pub params : ScryptParams
  pub created_at : ℕ
  pub updated_at : ℕ
  pub password_changed_at : ℕ
  pub last_login_at : Option ℕ

pub record PublicUser : Type 0 where
  pub user_id : String
  pub username : String
  pub role : Role
  pub display_name : String
  pub worker_id : Option String
  pub active : Bool
  pub created_at : ℕ
  pub updated_at : ℕ
  pub password_changed_at : ℕ
  pub last_login_at : Option ℕ

-- `_public`
abbrev pub public_user : User → PublicUser
public_user u = record {
  user_id = u.user_id;
  username = u.username;
  role = u.role;
  display_name = u.display_name;
  worker_id = u.worker_id;
  active = u.active;
  created_at = u.created_at;
  updated_at = u.updated_at;
  password_changed_at = u.password_changed_at;
  last_login_at = u.last_login_at;
}

pub record Session : Type 0 where
  pub token_hash : String
  pub session_id : String
  pub user_id : String
  pub created_at : ℕ
  pub expires_at : ℕ
  pub revoked_at : Option ℕ

pub record PublicSession : Type 0 where
  pub session_id : String
  pub user_id : String
  pub created_at : ℕ
  pub expires_at : ℕ
  pub revoked_at : Option ℕ

-- `_public_session`
abbrev pub public_session : Session → PublicSession
public_session s = record {
  session_id = s.session_id;
  user_id = s.user_id;
  created_at = s.created_at;
  expires_at = s.expires_at;
  revoked_at = s.revoked_at;
}

-- `x or default` on a number
abbrev or_default : ℕ → ℕ → ℕ
or_default x d = if x == 0 then d else x

-- `ScryptParams.from_record`, on a record that has all the columns.
abbrev pub from_record : User → Result ScryptParams
from_record u =
    if u.kdf == "scrypt"
    then ok (record {
      n = or_default u.params.n default_params.n;
      r = or_default u.params.r default_params.r;
      p = or_default u.params.p default_params.p;
      dklen = or_default u.params.dklen default_params.dklen;
    })
    else raised auth_error

abbrev text_before : String → String → Bool
text_before a b = elim (compare_text a b) [ Ordering.lt ↦ true | _ ↦ false ]

-- USERS_TABLE and SESSIONS_TABLE
abbrev pub user_spec : Spec User
user_spec = record {
  key = λ u. u.user_id;
  before = λ u v. text_before u.username_lower v.username_lower;
  restore = λ old u. record u { created_at = old.created_at };
  key_restore = λ old u. refl;
}

abbrev pub session_spec : Spec Session
session_spec = record {
  key = λ s. s.token_hash;
  before = λ s t. ltb s.created_at t.created_at;
  restore = λ old s. record s { created_at = old.created_at };
  key_restore = λ old s. refl;
}
