-- ===== src/Notifications/Attempts.antt =====
-- How often a channel is tried, and how long the service waits in between.
use field_pilot_ai_submissio.Common.{
  ℕ, zero, suc, ◌+◌, ◌-◌, ◌*◌, ◌^◌, ◌≤◌, ◌<◌, ◌≡◌, refl, sym, ap, ◌⊎◌, inl, inr, some, Bool, true,
  false, [], ◌∷◌, ◌++◌, String, if◌then◌else◌, ltb, text_equality, ◌==◌, arith, Bool-cases, lt→ltb,
  le→ltb,
}
use mathlib.Core.Path.{subst}
use native.Mathlib.Nat.{two-pow-succ, mul-add}
use native.Mathlib.Decide.{dec_lt}
use field_pilot_ai_submissio.Notifications.Service.{Note, Settings, Notifier, try_send, deliver}

module _ {M : Type 0} (settings : Settings) (registered : String → Bool)
    (send : Note → M → ℕ → Bool) (now : ℕ) (note : Note) (meta : M) where
  -- The note in its `i`-th attempt.
  abbrev pub tried : ℕ → Note
  tried i = record note { attempts = i }

  -- The attempts after the `a`-th fail, up to the `k`-th.
  abbrev pub Fail : ℕ → ℕ → Type 0
  Fail a k = (i : ℕ) → a < i → i ≤ k → send (tried i) meta i ≡ false

  -- The wait after an attempt, twice the one before.
  abbrev pub wait : ℕ → ℕ
  wait a = settings.base_backoff * 2 ^ a

  -- After the `k`-th attempt failed the next one succeeds.
  abbrev pub SentAfter : ℕ → ℕ → Note × ℕ → Type 0
  SentAfter a k (out, waited) =
      Fail a k
      × ((send (tried (suc k)) meta (suc k) ≡ true)
          × ((out ≡ record (tried (suc k)) { status = "sent"; sent_at = some now })
              × (wait a + waited ≡ wait k)))

  -- Every attempt fails, and there is no wait after the last one.
  abbrev pub GaveUp : ℕ → Note × ℕ → Type 0
  GaveUp a (out, waited) =
      Fail a settings.max_attempts
      × ((out ≡ record (tried settings.max_attempts) { status = "failed" })
          × ((a ≡ settings.max_attempts → waited ≡ 0)
              × ((l : ℕ) → settings.max_attempts ≡ suc l → a ≤ l → wait a + waited ≡ wait l)))

  double : (a : ℕ) → wait (suc a) ≡ wait a + wait a
  double a = rw (two-pow-succ a) (mul-add settings.base_backoff (2 ^ a) (2 ^ a))

  Fail-suc : (a k : ℕ) → send (tried (suc a)) meta (suc a) ≡ false → Fail (suc a) k → Fail a k
  Fail-suc a k h more i low high = elim (dec_lt (suc a) i) [
    | yes p ↦ more i p high
    | no p ↦ (let e : i ≡ suc a = omega arith in rw e h)
  ]

  slept : ℕ → ℕ
  slept a = if ltb (suc a) settings.max_attempts then settings.base_backoff * 2 ^ (suc a - 1) else 0

  slept-wait : (a : ℕ) → suc a < settings.max_attempts → slept a ≡ wait a
  unfolding slept
  slept-wait a h =
      rw (lt→ltb (suc a) settings.max_attempts h)
        (ap (λ k. settings.base_backoff * 2 ^ k) (omega arith))

  slept_none : (a : ℕ) → settings.max_attempts ≤ suc a → slept a ≡ 0
  unfolding slept
  slept_none a h = rw (le→ltb (suc a) settings.max_attempts h) refl

  -- A delivery has ended: it was sent after some failures, or given up.
  unfoldable pub Ended : ℕ → Note × ℕ → Type 0
  Ended a r = ((k : ℕ) × (((a ≤ k) × (k < settings.max_attempts)) × SentAfter a k r)) ⊎ GaveUp a r

  -- One more failed attempt before an end.
  Ended-suc :
      (a : ℕ) (r : Note × ℕ)
      → suc a ≤ settings.max_attempts
      → send (tried (suc a)) meta (suc a) ≡ false
      → Ended (suc a) r
      → Ended a (r.0, slept a + r.1)
  unfolding Ended
  Ended-suc a r h bad (inl (k, ((low, high), (f, (ok, (out, w)))))) = inl (
    k,
    (
      (omega arith, high),
      (Fail-suc a k bad f, (ok, (out, omega (arith, double a, slept-wait a (omega arith), w)))),
    ),
  )
  Ended-suc a r h bad (inr (f, (out, (stop, w)))) = inr (
    Fail-suc a settings.max_attempts bad f,
    (
      out,
      (
        λ e. absurd (omega arith),
        λ l e low. elim (dec_lt a l) [
          | yes p ↦ omega (arith, double a, slept-wait a (omega arith), w l e (omega arith))
          | no p ↦
              let q : a ≡ l = omega arith in
              omega (arith, ap wait q, slept_none a (omega arith), stop (omega arith))
        ],
      ),
    ),
  )

  try_send-Ended :
      (left a : ℕ)
      → a + left ≡ settings.max_attempts
      → Ended a (try_send settings registered send now left (suc a) (tried a) meta)
  unfolding try_send Ended slept
  try_send-Ended zero a e =
      let q : a ≡ settings.max_attempts = omega arith in
      inr (
        λ i low high. absurd (omega arith),
        (
          ap (λ k. record (tried k) { status = "failed" }) q,
          (λ h. refl, λ l h low. absurd (omega arith)),
        ),
      )
  try_send-Ended (suc left) a e = elim (Bool-cases (send (tried (suc a)) meta (suc a))) [
    | inl ok ↦ rw ok (
        inl (
          a,
          (
            (omega arith, omega arith),
            (λ i low high. absurd (omega arith), (ok, (refl, omega arith))),
          ),
        ))
    | inr bad ↦ rw bad (
        Ended-suc a (try_send settings registered send now left (suc (suc a)) (tried (suc a)) meta)
          (omega arith) bad (try_send-Ended left (suc a) (omega arith)))
  ]

  deliver-try_send :
      (n : Notifier M)
      → (note.channel == "dashboard") ≡ false
      → registered note.channel ≡ true
      → let done = try_send settings registered send now settings.max_attempts 1 note meta in
        deliver settings registered send now note meta n
        ≡ (record n { saved = n.saved ++ (done.0 ∷ []); waited = n.waited + done.1 }, done.0)
  unfolding deliver
  deliver-try_send n c r = rw (c, r) refl

  -- Delivering a note that was not tried before, over a channel with a sender, ends and saves the
  -- note once: either some attempt succeeds, all earlier ones having failed, and the note is sent
  -- with that number of attempts, the waits doubling from one to the next; or every attempt up to
  -- the maximum fails, the note is marked as failed, and there is no wait after the last attempt.
  pub deliver-Ended :
      (n : Notifier M)
      → note.attempts ≡ 0
      → (note.channel == "dashboard") ≡ false
      → registered note.channel ≡ true
      → let (after, out) = deliver settings registered send now note meta n in
        (after.saved ≡ n.saved ++ (out ∷ []))
        × ((waited : ℕ) × ((after.waited ≡ n.waited + waited) × Ended 0 (out, waited)))
  deliver-Ended n z c r =
      let done = try_send settings registered send now settings.max_attempts 1 note meta in
      let fresh : tried 0 ≡ note = (λ i. record note { attempts = sym z i }) in
      let ended : Ended 0 done =
        subst (λ m. Ended 0 (try_send settings registered send now settings.max_attempts 1 m meta))
          fresh (try_send-Ended settings.max_attempts 0 (omega arith)) in
      subst
        (λ d.
          (d.0.saved ≡ n.saved ++ (d.1 ∷ []))
          × ((waited : ℕ) × ((d.0.waited ≡ n.waited + waited) × Ended 0 (d.1, waited))))
        (sym (deliver-try_send n c r)) (refl, (done.1, (refl, ended)))
