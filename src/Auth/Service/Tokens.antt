-- ===== src/Auth/Service/Tokens.antt =====
-- fieldpilot/auth/service.py: sessions, from their opening to their revocation.
use field_pilot_ai_submissio.Common.{
  ℕ, ◌+◌, Option, none, some, Bool, true, false, List, map, String, text_equality, ◌==◌, leb,
  if◌then◌else◌, ◌&&◌, ◌||◌, not, is_some, length, filter_by,
}
use field_pilot_ai_submissio.Common.Text.{truthy}
use field_pilot_ai_submissio.Storage.Table
use field_pilot_ai_submissio.Storage.Bulk.{patch_each, delete_each}
use field_pilot_ai_submissio.Auth.Accounts.{
  ScryptParams, User, PublicUser, public_user, Session, PublicSession, public_session, user_spec,
  session_spec,
}
use field_pilot_ai_submissio.Auth.Service.State.{Config, Auth, Random}

abbrev pub live_of : String → Session → Bool
live_of user s = s.user_id == user && not (is_some s.revoked_at)

abbrev pub revoke : ℕ → Session → Session
revoke now s = record s { revoked_at = some now }

-- The sessions of the user that the query finds.
unfoldable pub live_sessions : String → List Session → List Session
live_sessions user sessions = Table.select session_spec (live_of user) 1000 true sessions

-- The table, and how many sessions were revoked.
unfoldable pub revoke_user_sessions : ℕ → String → List Session → List Session × ℕ
revoke_user_sessions now user sessions =
    let rows = live_sessions user sessions in
    (patch_each session_spec (revoke now) rows sessions, length rows)

abbrev pub wanted_user : Option String → String → Bool
wanted_user none u = true
wanted_user (some v) u = if truthy v then u == v else true

unfoldable pub list_sessions : ℕ → Option String → Bool → Auth → List PublicSession
list_sessions now user live_only auth = map public_session (
    Table.select session_spec
      (λ s.
        wanted_user user s.user_id
        && (not live_only || (not (is_some s.revoked_at) && leb now s.expires_at)))
      1000 true auth.sessions)

abbrev pub dead : ℕ → Session → Bool
dead now s = leb s.expires_at now

unfoldable pub purge_expired_sessions : ℕ → List Session → List Session × ℕ
purge_expired_sessions now sessions =
    let rows = filter_by (dead now) (Table.select session_spec (λ s. true) 5000 true sessions) in
    (delete_each session_spec rows sessions, length rows)

abbrev pub is_live : ℕ → Session → Bool
is_live now s = not (is_some s.revoked_at) && not (leb s.expires_at now)

abbrev pub active_user : Option User → Option PublicUser
active_user none = none
active_user (some u) = if u.active then some (public_user u) else none

abbrev pub session_user : ℕ → List User → Option Session → Option PublicUser
session_user now users none = none
session_user now users (some s) =
    if is_live now s then active_user (Table.get user_spec s.user_id users) else none

abbrev pub not_revoked : Option Session → Bool
not_revoked none = false
not_revoked (some s) = not (is_some s.revoked_at)

module _ (config : Config) (lower : String → String)
    (scrypt : ScryptParams → String → String → String) (sha : String → String) where
  unfoldable pub open_session : ℕ → Random → String → List Session → List Session
  open_session now random user sessions =
      (Table.put session_spec
        (record {
          token_hash = sha random.token;
          session_id = random.session_id;
          user_id = user;
          created_at = now;
          expires_at = now + config.token_ttl;
          revoked_at = none;
        })
        sessions).0

  unfoldable pub resolve_token : ℕ → String → Auth → Option PublicUser
  resolve_token now token auth =
      if truthy token
      then session_user now auth.users (Table.get session_spec (sha token) auth.sessions)
      else none

  unfoldable pub logout : ℕ → String → Auth → Auth × Bool
  logout now token auth =
      if truthy token && not_revoked (Table.get session_spec (sha token) auth.sessions)
      then (
        record auth {
          sessions = (Table.patch session_spec (sha token) (revoke now) auth.sessions).0;
        },
        true,
      )
      else (auth, false)
