-- ===== src/Auth/Login.antt =====
-- A login opens a session whose token resolves to the user who logged in.
use field_pilot_ai_submissio.Common.{
  ℕ, ◌+◌, ◌<◌, ◌≡◌, refl, sym, ap, ◌∙◌, none, some, true, List, [], ◌∷◌, String, text_equality,
  ◌==◌, ==_refl, arith, Bool-cases, Option-cases, inl, inr, ◌⊎◌, All,
}
use field_pilot_ai_submissio.Common.Text.{strip, truthy}
use mathlib.Core.Path.{subst}
use field_pilot_ai_submissio.Storage.Table
use field_pilot_ai_submissio.Storage.Lookup.{get-patch, get-upsert, patch-get}
use field_pilot_ai_submissio.Storage.Query.{UniqueKeys}
use field_pilot_ai_submissio.Storage.Rows.{Held, Held-self, All-select}
use field_pilot_ai_submissio.Auth.Validation.{Result, Error, ok, raised, invalid_credentials}
use field_pilot_ai_submissio.Auth.Accounts.{
  ScryptParams, weaker_than, User, PublicUser, Session, user_spec, session_spec, from_record,
}
use field_pilot_ai_submissio.Auth.Service.{
  Config, Auth, Random, head, find_by_username_lower, open_session, resolve_token, upgraded,
  maybe_upgrade, logged_in, log_in, credentials_ok, authenticate_user, authenticate,
}

head-All : {A : Type 0} (P : A → Type 0) (xs : List A) (x : A) → All P xs → head xs ≡ some x → P x
head-All P [] x h e = absurd (let q : none ≡ some x = e in cc)
head-All P (y ∷ xs) x (p, h) e = let q : y ≡ x = cc in subst P q p

-- The user that is found stands in the table.
find_by_username_lower-Held :
    (lower : String) (users : List User) (x : User)
    → UniqueKeys user_spec users
    → find_by_username_lower lower users ≡ some x
    → Held user_spec users x
unfolding find_by_username_lower
find_by_username_lower-Held lower users x u e = elim (Bool-cases (truthy lower)) [
  | inr t ↦ absurd (let q : none ≡ some x = rw t at e in cc)
  | inl t ↦
      head-All (Held user_spec users) _ x
        (All-select user_spec (Held user_spec users) (λ v. v.username_lower == lower) 2 true users
          (Held-self user_spec users u))
        (rw t at e)
]

result-cases : {A : Type 0} (r : Result A) → ((e : Error) × (r ≡ raised e)) ⊎ ((a : A) × (r ≡ ok a))
result-cases (raised e) = inl (e, refl)
result-cases (ok a) = inr (a, refl)

module _ (config : Config) (lower : String → String)
    (scrypt : ScryptParams → String → String → String) (sha : String → String) where
  -- An upgrade of the hash keeps the account.
  maybe_upgrade-Held :
      (now : ℕ) (random : Random) (password : String) (params : ScryptParams) (x : User)
      (users : List User)
      → Held user_spec users x
      → (y : User) × ((Table.get user_spec x.user_id
              (maybe_upgrade config lower scrypt sha now random password params x users)
            ≡ some y)
          × (y.active ≡ x.active))
  unfolding maybe_upgrade
  maybe_upgrade-Held now random password params x users h =
      elim (Bool-cases (weaker_than params config.kdf)) [
        | inr e ↦ rw e (x, (h, refl))
        | inl e ↦ rw e (
          upgraded config lower scrypt sha now random password x,
          (
            get-patch user_spec (upgraded config lower scrypt sha now random password) (λ y. refl)
                  x.user_id users x.user_id
                ∙ rw (==_refl x.user_id, h) refl,
            refl,
          ),
        )
      ]

  -- The session that a login opens.
  get-open_session :
      (now : ℕ) (random : Random) (user : String) (sessions : List Session)
      → Table.get session_spec (sha random.token) sessions ≡ none
      → Table.get session_spec
          (sha random.token)
          (open_session config lower scrypt sha now random user sessions)
        ≡ some (record {
          token_hash = sha random.token;
          session_id = random.session_id;
          user_id = user;
          created_at = now;
          expires_at = now + config.token_ttl;
          revoked_at = none;
        })
  unfolding open_session Table.put
  get-open_session now random user sessions n =
      get-upsert session_spec _ sessions (sha random.token)
      ∙ rw (==_refl (sha random.token), n) refl

  log_in-resolve :
      (now later : ℕ) (random : Random) (password : String) (params : ScryptParams) (x : User)
      (auth : Auth)
      → Held user_spec auth.users x
      → x.active ≡ true
      → truthy random.token ≡ true
      → Table.get session_spec (sha random.token) auth.sessions ≡ none
      → later < now + config.token_ttl
      → resolve_token config lower scrypt sha later random.token
          (log_in config lower scrypt sha now random password params x auth).0
        ≡ some (log_in config lower scrypt sha now random password params x auth).1.0
  unfolding log_in resolve_token
  log_in-resolve now later random password params x auth h a t n l =
      let (y, (g, k)) = maybe_upgrade-Held now random password params x auth.users h in
      rw
        (
          t,
          get-open_session now random x.user_id auth.sessions n,
          get-patch user_spec (logged_in now) (λ v. refl) x.user_id
              (maybe_upgrade config lower scrypt sha now random password params x auth.users)
              x.user_id,
          patch-get user_spec (logged_in now) (λ v. refl) x.user_id
              (maybe_upgrade config lower scrypt sha now random password params x auth.users),
          ==_refl x.user_id,
          g,
          k,
          a,
        )
        (ground arith)

  log_in-token :
      (now : ℕ) (random : Random) (password : String) (params : ScryptParams) (x : User)
      (auth : Auth)
      → random.token ≡ (log_in config lower scrypt sha now random password params x auth).1.1
  unfolding log_in
  log_in-token now random password params x auth = refl

  authenticate_user-none :
      (now : ℕ) (random : Random) (password : String) (auth : Auth)
      → (authenticate_user config lower scrypt sha now random password none auth).1
        ≡ raised invalid_credentials
  unfolding authenticate_user
  authenticate_user-none now random password auth = refl

  authenticate_user-resolve :
      (now later : ℕ) (random : Random) (password : String) (x : User) (auth : Auth)
      (user : PublicUser) (token : String)
      → Held user_spec auth.users x
      → truthy random.token ≡ true
      → Table.get session_spec (sha random.token) auth.sessions ≡ none
      → later < now + config.token_ttl
      → (authenticate_user config lower scrypt sha now random password (some x) auth).1
        ≡ ok (user, token)
      → resolve_token config lower scrypt sha later token
          (authenticate_user config lower scrypt sha now random password (some x) auth).0
        ≡ some user
  unfolding authenticate_user
  authenticate_user-resolve now later random password x auth user token h t n l r =
      elim (result-cases (from_record x)) [
        | inl (e, q) ↦
            absurd (let z : raised e ≡ ok (user, token) = rw (authenticate_user, q) at r in cc)
        | inr (params, q) ↦
            elim (Bool-cases (credentials_ok config lower scrypt sha params password x)) [
              | inr c ↦ absurd (
                  let z : raised invalid_credentials ≡ ok (user, token) =
                    rw (authenticate_user, q, c) at r in
                  cc)
              | inl c ↦
                  let done = log_in config lower scrypt sha now random password params x auth in
                  let z : ok done.1 ≡ ok (user, token) = rw (authenticate_user, q, c) at r in
                  let same : done.1 ≡ (user, token) = cc in
                  rw (authenticate_user, q, c)
                    (rw (← (log_in-token now random password params x auth ∙ ap (λ p. p.1) same)) (
                      log_in-resolve now later random password params x auth h (ground arith) t n l
                      ∙ ap (λ p. some p.0) same))
            ]
      ]

  -- A login that succeeds returns a token that resolves to the user it returns until its time is
  -- over, provided that each user's identifier stands once in the table, and that the token is not
  -- empty and its hash is that of no session yet.
  pub authenticate-resolve :
      (now later : ℕ) (random : Random) (username password : String) (auth : Auth)
      (user : PublicUser) (token : String)
      → UniqueKeys user_spec auth.users
      → truthy random.token ≡ true
      → Table.get session_spec (sha random.token) auth.sessions ≡ none
      → later < now + config.token_ttl
      → (authenticate config lower scrypt sha now random username password auth).1
        ≡ ok (user, token)
      → resolve_token config lower scrypt sha later token
          (authenticate config lower scrypt sha now random username password auth).0
        ≡ some user
  unfolding authenticate
  authenticate-resolve now later random username password auth user token u t n l r =
      elim (Option-cases (find_by_username_lower (lower (strip username)) auth.users)) [
        | inl e ↦ absurd (
            let z : raised invalid_credentials ≡ ok (user, token) =
              sym (authenticate_user-none now random password auth) ∙ rw e at r in
            cc)
        | inr (x, e) ↦ rw e (
            authenticate_user-resolve now later random password x auth user token
              (find_by_username_lower-Held (lower (strip username)) auth.users x u e) t n l
              (rw e at r))
      ]
