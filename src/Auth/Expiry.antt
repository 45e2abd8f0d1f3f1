-- ===== src/Auth/Expiry.antt =====
-- The purge of expired sessions is not seen by anyone who presents a token.
use field_pilot_ai_submissio.Common.{
  ℕ, ◌≤◌, ◌≡◌, refl, Option, none, some, Bool, true, false, List, [], ◌∷◌, String, text_equality,
  ◌==◌, ==_iff, arith, Bool-cases, inl, inr, All, filter_by,
}
use field_pilot_ai_submissio.Storage.Table
use field_pilot_ai_submissio.Storage.Table.{Spec}
use field_pilot_ai_submissio.Storage.Query.{has_key, UniqueKeys, passes}
use field_pilot_ai_submissio.Storage.Bulk.{get-delete_each}
use field_pilot_ai_submissio.Storage.Rows.{Held, Held-self, All-select, All-filter_by, All-passed}
use field_pilot_ai_submissio.Auth.Accounts.{ScryptParams, User, Session, session_spec}
use field_pilot_ai_submissio.Auth.Service.{
  Config, Auth, dead, purge_expired_sessions, session_user, resolve_token,
}

-- A key that stands among rows of the table that pass a test is that of a row that passes it.
passes-has_key :
    {R : Type 0} (spec : Spec R) (test : R → Bool) (k : String) (rows table : List R)
    → All (λ r. test r ≡ true) rows
    → All (Held spec table) rows
    → has_key spec k rows ≡ true
    → passes spec test (Table.get spec k table) ≡ true
unfolding has_key
passes-has_key spec test k [] table p h f = absurd (let q : false ≡ true = f in cc)
passes-has_key spec test k (r ∷ rows) table (p, ps) (h, hs) f =
    elim (Bool-cases (spec.key r == k)) [
      | inl e ↦ rw (← (==_iff (spec.key r) k).0 e, h) p
      | inr e ↦ passes-has_key spec test k rows table ps hs (rw e at f)
    ]

session_user-dead :
    (now later : ℕ) (users : List User) (o : Option Session)
    → now ≤ later
    → passes session_spec (dead now) o ≡ true
    → session_user later users o ≡ none
session_user-dead now later users none h p = refl
session_user-dead now later users (some s) h p = ground arith

module _ (config : Config) (lower : String → String)
    (scrypt : ScryptParams → String → String → String) (sha : String → String) where
  -- The purge of expired sessions changes for no token what it resolves to from then on, provided
  -- that each token's hash stands once in the table and the clock does not go back.
  pub resolve_token-purge :
      (now later : ℕ) (token : String) (auth : Auth)
      → UniqueKeys session_spec auth.sessions
      → now ≤ later
      → resolve_token config lower scrypt sha later token
          (record auth { sessions = (purge_expired_sessions now auth.sessions).0 })
        ≡ resolve_token config lower scrypt sha later token auth
  unfolding resolve_token purge_expired_sessions
  resolve_token-purge now later token auth u h =
      let found = Table.select session_spec (λ s. true) 5000 true auth.sessions in
      let rows = filter_by (dead now) found in
      rw (get-delete_each session_spec rows auth.sessions (sha token))
        (elim (Bool-cases (has_key session_spec (sha token) rows)) [
          | inr e ↦ rw e refl
          | inl e ↦
              let held = All-filter_by (Held session_spec auth.sessions) (dead now) found (
                All-select session_spec (Held session_spec auth.sessions) (λ s. true) 5000 true
                  auth.sessions (Held-self session_spec auth.sessions u)) in
              let over =
                passes-has_key session_spec (dead now) (sha token) rows auth.sessions
                  (All-passed (dead now) found) held e in
              rw
                (
                  e,
                  session_user-dead now later auth.users
                      (Table.get session_spec (sha token) auth.sessions) h over,
                )
                refl
        ])
