-- ===== src/Notifications/Window.antt =====
-- Within the window a notification is given once: a second call only counts it.
use field_pilot_ai_submissio.Common.{
  ℕ, ◌+◌, ◌*◌, ◌/◌, ◌≤◌, ◌≡◌, refl, ap, ◌∙◌, Option, none, some, Bool, true, List, [], ◌∷◌, String,
  is_some, text_equality, ◌==◌, ◌||◌, arith, All, All-mono, ==_refl,
}
use field_pilot_ai_submissio.Triggers.Cache
use field_pilot_ai_submissio.Triggers.Cache.{Cache, live, get-live, live-get, live-set}
use field_pilot_ai_submissio.Notifications.Service.{
  Note, Mark, Settings, Notifier, Notice, whole_seconds, targets, channel_key, deliver, on_found,
  notify_channel, add_note, notify_each, notify,
}
use mathlib.Core.Path.{ap₂}

module _ {M : Type 0} (settings : Settings) where
  -- The channel has been told of the notification, as a read at time `u` sees it.
  abbrev told : ℕ → String → String → Notifier M → Bool
  told u key channel n = is_some (live u n.cache (channel_key channel key))

  -- A call gives no notification: nothing is saved, and nothing is put on the bus.
  abbrev Silent : Notifier M → Notifier M × Option Note → Type 0
  Silent n (after, out) = (out ≡ none) × ((after.saved ≡ n.saved) × (after.published ≡ n.published))

  module _ (registered : String → Bool) (send : Note → M → ℕ → Bool) (now : ℕ) where
    cache-deliver :
        (note : Note) (meta : M) (n : Notifier M)
        → (deliver settings registered send now note meta n).0.cache ≡ n.cache
    unfolding deliver
    cache-deliver note meta n = ground arith

    module _ (fresh channel : String) (notice : Notice M) (n : Notifier M) where
      key : String
      key = channel_key channel notice.dedup_key

      left : Cache Mark
      left = (Cache.get key now n.cache).1

      cache-on_found :
          (o : Option Mark) (n : Notifier M)
          → (mark : Mark) × ((on_found settings registered send now fresh channel notice n
                o).0.cache
              ≡ Cache.set key mark (whole_seconds settings.dedup_window) now n.cache)
      unfolding on_found key
      cache-on_found none n = (_, cache-deliver _ notice.meta _)
      cache-on_found (some mark) n = (_, refl)

      -- Either way the cache holds the notification afresh.
      cache-notify_channel :
          (mark : Mark) × ((notify_channel settings registered send now fresh channel notice
              n).0.cache
            ≡ Cache.set key mark (whole_seconds settings.dedup_window) now left)
      unfolding notify_channel left key
      cache-notify_channel =
          cache-on_found (Cache.get key now n.cache).0 (record n { cache = left })

      on_found-again :
          (o : Option Mark) (n : Notifier M)
          → is_some o ≡ true
          → Silent n (on_found settings registered send now fresh channel notice n o)
      unfolding on_found
      on_found-again none n h = absurd cc
      on_found-again (some mark) n h = (refl, (refl, refl))

      notify_channel-again :
          told now notice.dedup_key channel n ≡ true
          → Silent n (notify_channel settings registered send now fresh channel notice n)
      unfolding notify_channel key left
      notify_channel-again h =
          on_found-again (Cache.get key now n.cache).0 (record n { cache = left })
            (ap is_some (get-live key now n.cache) ∙ h)

    -- What is in the cache stays there for the window.
    told-notify_channel :
        (fresh channel : String) (notice : Notice M) (n : Notifier M) (u : ℕ) (other : String)
        → now ≤ u
        → u ≤ now + whole_seconds settings.dedup_window
        → told u notice.dedup_key other
            (notify_channel settings registered send now fresh channel notice n).0
          ≡ (channel_key channel notice.dedup_key == channel_key other notice.dedup_key
              || told u notice.dedup_key other n)
    unfolding key left
    told-notify_channel fresh channel notice n u other low high =
        let (mark, e) = cache-notify_channel fresh channel notice n in
        let other_key = channel_key other notice.dedup_key in
        let this_key = channel_key channel notice.dedup_key in
        let rest = (Cache.get this_key now n.cache).1 in
        ap (λ c. is_some (live u c other_key)) e
        ∙ ap is_some
            (live-set this_key mark (whole_seconds settings.dedup_window) now u rest other_key)
        ∙ ground (arith, live-get this_key now u n.cache other_key low)

    told-notify_each :
        (fresh : String → String) (channels : List String) (notice : Notice M) (n : Notifier M)
        (u : ℕ) (other : String)
        → now ≤ u
        → u ≤ now + whole_seconds settings.dedup_window
        → told u notice.dedup_key other n ≡ true
        → told u notice.dedup_key other
            (notify_each settings registered send now fresh channels notice n).0
          ≡ true
    unfolding notify_each
    told-notify_each fresh [] notice n u other low high h = h
    told-notify_each fresh (channel ∷ channels) notice n u other low high h =
        let n' = (notify_channel settings registered send now (fresh channel) channel notice n).0 in
        told-notify_each fresh channels notice n' u other low high (
          told-notify_channel (fresh channel) channel notice n u other low high ∙ ground (arith, h))

    told_everywhere :
        (fresh : String → String) (channels : List String) (notice : Notice M) (n : Notifier M)
        (u : ℕ)
        → now ≤ u
        → u ≤ now + whole_seconds settings.dedup_window
        → All
            (λ c.
              told u notice.dedup_key c
                (notify_each settings registered send now fresh channels notice n).0
              ≡ true)
            channels
    unfolding notify_each
    told_everywhere fresh [] notice n u low high = tt
    told_everywhere fresh (channel ∷ channels) notice n u low high =
        let n' = (notify_channel settings registered send now (fresh channel) channel notice n).0 in
        (
          told-notify_each fresh channels notice n' u channel low high (
              told-notify_channel (fresh channel) channel notice n u channel low high
              ∙ ground (arith, ==_refl (channel_key channel notice.dedup_key))),
          told_everywhere fresh channels notice n' u low high,
        )

    notify_each-again :
        (fresh : String → String) (channels : List String) (notice : Notice M) (n : Notifier M)
        → All (λ c. told now notice.dedup_key c n ≡ true) channels
        → let (after, notes) = notify_each settings registered send now fresh channels notice n in
          (notes ≡ []) × ((after.saved ≡ n.saved) × (after.published ≡ n.published))
    unfolding notify_each
    notify_each-again fresh [] notice n h = (refl, (refl, refl))
    notify_each-again fresh (channel ∷ channels) notice n (p, h) =
        let step = notify_channel settings registered send now (fresh channel) channel notice n in
        let (out, (s, b)) = notify_channel-again (fresh channel) channel notice n p in
        let (notes, (s', b')) = notify_each-again fresh channels notice step.0 (
          All-mono channels
            (λ c q.
              told-notify_channel (fresh channel) channel notice n now c (omega arith) (omega arith)
              ∙ ground (arith, q))
            h) in
        (ap₂ add_note out notes, (s' ∙ s, b' ∙ b))

  -- A notice that was given is not given again within the window, cut to whole seconds, on none of
  -- its channels: the second call returns no notification, saves none and puts none on the bus.
  pub notify-again :
      (registered : String → Bool) (send : Note → M → ℕ → Bool) (first second : ℕ)
      (fresh again : String → String) (notice : Notice M) (n : Notifier M)
      → first ≤ second
      → second ≤ first + settings.dedup_window / 1000 * 1000
      → let before = (notify settings registered send first fresh notice n).0 in
        let (after, notes) = notify settings registered send second again notice before in
        (notes ≡ []) × ((after.saved ≡ before.saved) × (after.published ≡ before.published))
  unfolding notify
  notify-again registered send first second fresh again notice n low high =
      let channels = targets notice.channels notice.severity in
      notify_each-again registered send second again channels notice
        (notify_each settings registered send first fresh channels notice n).0
        (told_everywhere registered send first fresh channels notice n second low high)
