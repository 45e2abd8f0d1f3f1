-- ===== src/Auth/Revocation.antt =====
-- A new password, a deactivation and a deletion end the user's sessions, and nobody else's.
use field_pilot_ai_submissio.Common.{
  ℕ, ◌≤◌, ◌≡◌, refl, ◌∙◌, Option, none, some, true, false, List, String, text_equality, ◌==◌,
  ==_iff, if◌then◌else◌, arith, Bool-cases, Option-cases, inl, inr,
}
use field_pilot_ai_submissio.Common.Text.{truthy}
use field_pilot_ai_submissio.Storage.Table
use field_pilot_ai_submissio.Storage.Lookup.{get-patch, get-delete, key-get, patch-get}
use field_pilot_ai_submissio.Storage.Query.{UniqueKeys}
use field_pilot_ai_submissio.Auth.Validation.{ok, raised, value_error, password_ok}
use field_pilot_ai_submissio.Auth.Accounts.{ScryptParams, User, PublicUser, user_spec, session_spec}
use field_pilot_ai_submissio.Auth.Service.{
  Config, Auth, Random, live_of, revoke_user_sessions, resolve_token, with_password, set_password,
  with_active, set_active, delete_user,
}
use field_pilot_ai_submissio.Auth.Sessions.{belongs, session_user-revoked, session_user-users}

module _ (config : Config) (lower : String → String)
    (scrypt : ScryptParams → String → String → String) (sha : String → String) where
  -- What a token resolves to when the user's sessions have ended.
  abbrev pub ended : ℕ → String → String → Auth → Option PublicUser
  ended later token user auth =
      if belongs user (Table.get session_spec (sha token) auth.sessions)
      then none
      else resolve_token config lower scrypt sha later token auth

  -- A state whose sessions are revoked and whose other users are as they were.
  resolve_token-revoked :
      (now later : ℕ) (token user : String) (users' : List User) (auth : Auth)
      → UniqueKeys session_spec auth.sessions
      → Table.count session_spec (live_of user) auth.sessions ≤ 1000
      → ((j : String)
          → (j == user) ≡ false
          → Table.get user_spec j users' ≡ Table.get user_spec j auth.users)
      → resolve_token config lower scrypt sha later token
          (record { users = users'; sessions = (revoke_user_sessions now user auth.sessions).0 })
        ≡ ended later token user auth
  unfolding resolve_token
  resolve_token-revoked now later token user users' auth u h same =
      elim (Bool-cases (truthy token)) [
        | inr e ↦ rw e (ground arith)
        | inl e ↦ rw e (
            session_user-revoked config lower scrypt sha now later user users' auth.sessions
              (sha token) u h
            ∙ session_user-users config lower scrypt sha later user auth.users users'
                (Table.get session_spec (sha token) auth.sessions) same)
      ]

  get-patch_other :
      (change : User → User) (keeps : (x : User) → user_spec.key (change x) ≡ user_spec.key x)
      (user : String) (users : List User) (j : String)
      → (j == user) ≡ false
      → Table.get user_spec j (Table.patch user_spec user change users).0
        ≡ Table.get user_spec j users
  get-patch_other change keeps user users j n =
      get-patch user_spec change keeps user users j ∙ ground (arith, ==_iff j user, ==_iff user j)

  -- After a new password was set, no session of the user resolves, and every other token resolves
  -- as before, provided that each token's hash stands once in the table and the user had at most a
  -- thousand live sessions.
  pub set_password-ended :
      (now later : ℕ) (random : Random) (user password token : String) (auth : Auth)
      → UniqueKeys session_spec auth.sessions
      → Table.count session_spec (live_of user) auth.sessions ≤ 1000
      → (set_password config lower scrypt sha now random user password auth).1 ≡ ok true
      → resolve_token config lower scrypt sha later token
          (set_password config lower scrypt sha now random user password auth).0
        ≡ ended later token user auth
  unfolding set_password
  set_password-ended now later random user password token auth u h r =
      elim (Bool-cases (password_ok password)) [
        | inr e ↦ absurd (let q : raised value_error ≡ ok true = rw e at r in cc)
        | inl e ↦ elim (Option-cases (Table.get user_spec user auth.users)) [
          | inl m ↦ absurd (let q : ok false ≡ ok true = rw (e, m) at r in cc)
          | inr (x, m) ↦
              rw (e, m)
                (rw (key-get user_spec user auth.users x m) (
                  resolve_token-revoked now later token user _ auth u h (
                    get-patch_other (with_password config lower scrypt sha now random password)
                      (λ y. refl) user auth.users)))
        ]
      ]

  -- After an account was deleted, no session of the user resolves, and every other token resolves
  -- as before, provided that each token's hash stands once in the table and the user had at most a
  -- thousand live sessions.
  pub delete_user-ended :
      (now later : ℕ) (user token : String) (auth : Auth)
      → UniqueKeys session_spec auth.sessions
      → Table.count session_spec (live_of user) auth.sessions ≤ 1000
      → resolve_token config lower scrypt sha later token (delete_user now user auth).0
        ≡ ended later token user auth
  unfolding delete_user
  delete_user-ended now later user token auth u h =
      resolve_token-revoked now later token user _ auth u h (λ j n.
        get-delete user_spec user auth.users j ∙ ground (arith, ==_iff j user, ==_iff user j))

  -- After an account was deactivated, no session of the user resolves, and every other token
  -- resolves as before, provided that each token's hash stands once in the table and the user had
  -- at most a thousand live sessions.
  pub set_active-ended :
      (now later : ℕ) (user token : String) (auth : Auth) (out : PublicUser)
      → UniqueKeys session_spec auth.sessions
      → Table.count session_spec (live_of user) auth.sessions ≤ 1000
      → (set_active now user false auth).1 ≡ some out
      → resolve_token config lower scrypt sha later token (set_active now user false auth).0
        ≡ ended later token user auth
  unfolding set_active
  set_active-ended now later user token auth out u h r =
      let told = patch-get user_spec (with_active now false) (λ y. refl) user auth.users in
      elim (Option-cases (Table.get user_spec user auth.users)) [
        | inl m ↦ absurd (let q : none ≡ some out = rw (set_active, told, m) at r in cc)
        | inr (x, m) ↦
            rw (set_active, told, m)
              (rw (key-get user_spec user auth.users x m) (
                resolve_token-revoked now later token user _ auth u h
                  (get-patch_other (with_active now false) (λ y. refl) user auth.users)))
      ]
