-- ===== src/Auth/Tests.antt =====
-- A small site: one manager and one worker, with toy hash functions.
use field_pilot_ai_submissio.Common.{
  ◌≡◌, refl, arith, none, some, true, [], ◌∷◌, String, text_equality,
}
use Prim.Native.String.{◌++◌}
use field_pilot_ai_submissio.Common.Text.{strip}
use field_pilot_ai_submissio.Storage.Table
use field_pilot_ai_submissio.Storage.Query.{has_key}
use field_pilot_ai_submissio.Auth.Validation.{
  worker, raised, duplicate_user, clean_username, clean_role, clean_worker_id, password_ok,
  bearer_token,
}
use field_pilot_ai_submissio.Auth.Accounts.{
  ScryptParams, default_params, weaker_than, User, public_user, Session,
}
use field_pilot_ai_submissio.Auth.Service.{
  Config, Auth, Random, create_user, register, find_by_username_lower, find_by_worker_id,
  authenticate, authenticate_user, log_in, maybe_upgrade, resolve_token, logout, logged_in,
  set_password,
}
use field_pilot_ai_submissio.Auth.Login.{authenticate-resolve}
use field_pilot_ai_submissio.Auth.Revocation.{ended, set_password-ended}
use field_pilot_ai_submissio.Storage.Bulk.{delete_each}
use field_pilot_ai_submissio.Auth.Service.{purge_expired_sessions}
use field_pilot_ai_submissio.Auth.Expiry.{resolve_token-purge}
use field_pilot_ai_submissio.Auth.Sessions.{resolve_token-logout}

abbrev config : Config
config = record { token_ttl = 43200000; kdf = default_params }

abbrev lower : String → String
lower s = s

abbrev scrypt : ScryptParams → String → String → String
scrypt params password salt = password ++ salt

abbrev sha : String → String
sha token = "#" ++ token

abbrev ravi : User
ravi = record {
  user_id = "u1";
  username = "ravi";
  username_lower = "ravi";
  role = worker;
  display_name = "Ravi";
  worker_id = some "w-1";
  active = true;
  password_hash = "worker123s1";
  salt = "s1";
  kdf = "scrypt";
  params = default_params;
  created_at = 1;
  updated_at = 1;
  password_changed_at = 1;
  last_login_at = none;
}

abbrev ravis : Session
ravis = record {
  token_hash = "#t1";
  session_id = "x1";
  user_id = "u1";
  created_at = 5;
  expires_at = 9000;
  revoked_at = none;
}

abbrev site : Auth
site = record { users = ravi ∷ []; sessions = ravis ∷ [] }

abbrev random : Random
random = record { user_id = "u2"; salt = "s2"; token = "t2"; session_id = "x2" }

bearer_run : bearer_token lower (some " bearer  t1 ") ≡ some "t1"
unfolding bearer_token
bearer_run = refl

username_run : clean_username "-ravi" ≡ none
unfolding clean_username
username_run = refl

duplicate_run :
    (create_user config lower scrypt sha 10 random "ravi" "worker123" "worker" "" none site).1
    ≡ raised duplicate_user
unfolding create_user register clean_username clean_role clean_worker_id password_ok
    find_by_username_lower find_by_worker_id Table.select
duplicate_run = refl

resolve_run : resolve_token config lower scrypt sha 8999 "t1" site ≡ some (public_user ravi)
unfolding resolve_token Table.get
resolve_run = refl

authenticate-resolve_example :
    resolve_token config lower scrypt sha 20 "t2"
      (authenticate config lower scrypt sha 10 random " ravi" "worker123" site).0
    ≡ some (public_user (logged_in 10 ravi))
unfolding authenticate authenticate_user log_in maybe_upgrade weaker_than strip
    find_by_username_lower Table.select Table.patch Table.get has_key
authenticate-resolve_example =
    authenticate-resolve config lower scrypt sha 10 20 random " ravi" "worker123" site
      (public_user (logged_in 10 ravi)) "t2" (refl, tt) refl refl (omega arith) refl

resolve_token-logout_example :
    resolve_token config lower scrypt sha 20 "t1" (logout config lower scrypt sha 10 "t1" site).0
    ≡ none
resolve_token-logout_example = resolve_token-logout config lower scrypt sha 10 20 "t1" site

set_password-ended_example :
    resolve_token config lower scrypt sha 20 "t1"
      (set_password config lower scrypt sha 10 random "u1" "new-secret" site).0
    ≡ ended config lower scrypt sha 20 "t1" "u1" site
unfolding set_password password_ok Table.get has_key Table.count
set_password-ended_example =
    set_password-ended config lower scrypt sha 10 20 random "u1" "new-secret" "t1" site (refl, tt)
      (omega arith) refl

resolve_token-purge_example :
    resolve_token config lower scrypt sha 9500 "t1"
      (record site { sessions = (purge_expired_sessions 9000 site.sessions).0 })
    ≡ resolve_token config lower scrypt sha 9500 "t1" site
unfolding has_key
resolve_token-purge_example =
    resolve_token-purge config lower scrypt sha 9000 9500 "t1" site (refl, tt) (omega arith)

purge_run : purge_expired_sessions 9000 site.sessions ≡ ([], 1)
unfolding purge_expired_sessions Table.select delete_each Table.delete
purge_run = refl
