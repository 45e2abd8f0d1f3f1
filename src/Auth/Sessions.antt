-- ===== src/Auth/Sessions.antt =====
-- Which tokens still resolve after a log-out, a new password, a deactivation or a deletion.
use field_pilot_ai_submissio.Common.{
  ℕ, ◌≤◌, ◌≡◌, refl, Option, none, some, Bool, true, false, List, String, text_equality, ◌==◌,
  ==_refl, if◌then◌else◌, arith, Bool-cases, Option-cases, inl, inr,
}
use mathlib.Core.Option
use field_pilot_ai_submissio.Common.Text.{truthy}
use field_pilot_ai_submissio.Storage.Table
use field_pilot_ai_submissio.Storage.Lookup.{get-patch}
use field_pilot_ai_submissio.Storage.Query.{UniqueKeys, passes}
use field_pilot_ai_submissio.Storage.Bulk.{get-patch_selected}
use field_pilot_ai_submissio.Auth.Accounts.{ScryptParams, User, Session, user_spec, session_spec}
use field_pilot_ai_submissio.Auth.Service.{
  Config, Auth, live_of, revoke, live_sessions, revoke_user_sessions, session_user, resolve_token,
  logout,
}

-- The session is one of the user's.
abbrev pub belongs : String → Option Session → Bool
belongs user none = false
belongs user (some s) = s.user_id == user

get-revoke_user_sessions :
    (now : ℕ) (user : String) (sessions : List Session) (k : String)
    → UniqueKeys session_spec sessions
    → Table.count session_spec (live_of user) sessions ≤ 1000
    → Table.get session_spec k (revoke_user_sessions now user sessions).0 ≡ (
        if passes session_spec (live_of user) (Table.get session_spec k sessions)
        then Option.map (revoke now) (Table.get session_spec k sessions)
        else Table.get session_spec k sessions)
unfolding revoke_user_sessions live_sessions
get-revoke_user_sessions now user sessions k u h =
    get-patch_selected session_spec (revoke now) (λ s. refl) (λ s. refl) (live_of user) 1000 true
      sessions k u h

module _ (config : Config) (lower : String → String)
    (scrypt : ScryptParams → String → String → String) (sha : String → String) where
  -- After the revocation, none of the user's sessions resolves, and every other one does as before.
  pub session_user-revoked :
      (now later : ℕ) (user : String) (users : List User) (sessions : List Session) (k : String)
      → UniqueKeys session_spec sessions
      → Table.count session_spec (live_of user) sessions ≤ 1000
      → session_user later users
          (Table.get session_spec k (revoke_user_sessions now user sessions).0)
        ≡ (if belongs user (Table.get session_spec k sessions)
            then none
            else session_user later users (Table.get session_spec k sessions))
  session_user-revoked now later user users sessions k u h =
      rw (get-revoke_user_sessions now user sessions k u h) (go (Table.get session_spec k sessions))
    where
      go :
          (o : Option Session)
          → session_user later users
              (if passes session_spec (live_of user) o then Option.map (revoke now) o else o)
            ≡ (if belongs user o then none else session_user later users o)
      go none = refl
      go (some s) = ground arith

  -- Another table of users that agrees on all but one of them.
  pub session_user-users :
      (later : ℕ) (user : String) (users users' : List User) (o : Option Session)
      → ((j : String)
          → (j == user) ≡ false
          → Table.get user_spec j users' ≡ Table.get user_spec j users)
      → (if belongs user o then none else session_user later users' o)
        ≡ (if belongs user o then none else session_user later users o)
  session_user-users later user users users' none same = refl
  session_user-users later user users users' (some s) same = elim (Bool-cases (s.user_id == user)) [
    | inl e ↦ rw e refl
    | inr e ↦ rw (e, same s.user_id e) refl
  ]

  -- A token that was logged out resolves to nobody from then on, whatever it was before.
  pub resolve_token-logout :
      (now later : ℕ) (token : String) (auth : Auth)
      → resolve_token config lower scrypt sha later token
          (logout config lower scrypt sha now token auth).0
        ≡ none
  unfolding resolve_token logout
  resolve_token-logout now later token auth = elim (Bool-cases (truthy token)) [
    | inr e ↦ rw e refl
    | inl e ↦ elim (Option-cases (Table.get session_spec (sha token) auth.sessions)) [
      | inl m ↦ rw (e, m) (rw m refl)
      | inr (s, m) ↦ elim (Option-cases s.revoked_at) [
        | inl q ↦
            rw (e, m, q)
              (rw
                (
                  get-patch session_spec (revoke now) (λ x. refl) (sha token) auth.sessions
                      (sha token),
                  ==_refl (sha token),
                  m,
                )
                refl)
        | inr (t, q) ↦ rw (e, m, q) (rw (m, q) refl)
      ]
    ]
  ]
