-- ===== src/Safety/Engagement.antt =====
-- When the state machine says that a worker noticed a hazard, and when it escalates.
use field_pilot_ai_submissio.Common.{
  ℕ, ◌+◌, ◌≤◌, ◌≡◌, refl, ap, ◌∙◌, Option, none, some, Bool, true, false, List, [], ◌∷◌, leb,
  if◌then◌else◌, ◌&&◌, ◌||◌, arith, String,
}
use field_pilot_ai_submissio.Safety.Attention.{
  AttentionState, passive, noticed, unnoticed, escalated, Thresholds, HazardAttention, new_machine,
  gaze_start, update,
}

-- A frame: its time, and whether the worker looks at the hazard.
abbrev pub Frame : Type 0
Frame = ℕ × Bool

abbrev pub run_updates : List Frame → HazardAttention → HazardAttention
run_updates [] m = m
run_updates ((t, looking) ∷ frames) m = run_updates frames (update t looking m)

-- The frames come in the order of their times, none before `s`.
abbrev pub InOrder : ℕ → List Frame → Type 0
InOrder s [] = Unit
InOrder s ((t, looking) ∷ frames) = (s ≤ t) × InOrder t frames

abbrev pub last_time : ℕ → List Frame → ℕ
last_time s [] = s
last_time s ((t, looking) ∷ frames) = last_time t frames

-- A gaze that began at `s` goes on, without a break, until it has lasted `d`.
abbrev pub gaze_lasts : ℕ → ℕ → List Frame → Bool
gaze_lasts d s [] = false
gaze_lasts d s ((t, looking) ∷ frames) = looking && (leb (s + d) t || gaze_lasts d s frames)

-- Some gaze of the run lasts `d`, without a break.
abbrev pub long_gaze : ℕ → List Frame → Bool
long_gaze d [] = false
long_gaze d ((t, looking) ∷ frames) = gaze_lasts d t ((t, looking) ∷ frames) || long_gaze d frames

-- What a hazard that began at `onset` and was not noticed comes to at a time.
abbrev pub graded : Thresholds → ℕ → ℕ → AttentionState
graded t onset now =
    if leb (onset + t.escalate_after_ms) now
    then escalated
    else (if leb (onset + t.unnoticed_after_ms) now then unnoticed else passive)

abbrev state_of : Bool → Thresholds → ℕ → ℕ → AttentionState
state_of seen t onset now = if seen then noticed else graded t onset now

-- Whether the gaze that a machine is in the middle of lasts.
abbrev goes_on : ℕ → Option ℕ → List Frame → Bool
goes_on d none frames = false
goes_on d (some s) frames = gaze_lasts d s frames

abbrev Begun : Option ℕ → ℕ → Type 0
Begun none now = Unit
Begun (some s) now = s ≤ now

gaze_lasts-le :
    (d s t : ℕ) (frames : List Frame)
    → s ≤ t
    → gaze_lasts d t frames ≡ true
    → gaze_lasts d s frames ≡ true
gaze_lasts-le d s t [] h g = g
gaze_lasts-le d s t ((u, looking) ∷ frames) h g = ground (arith, gaze_lasts-le d s t frames h)

module _ (t : Thresholds) (hazard : String) (onset : ℕ) where
  -- A machine in the course of its run.
  abbrev machine : AttentionState → Option ℕ → ℕ → HazardAttention
  machine state start last = record {
    hazard_id = hazard;
    onset_ms = onset;
    thresholds = t;
    state = state;
    dwell_start = start;
    last_seen_ms = last;
  }

  update-look :
      (seen : Bool) (start : Option ℕ) (last s now : ℕ)
      → s ≤ now
      → update now true (machine (state_of seen t onset s) start last)
        ≡ machine
            (state_of (seen || leb (gaze_start start now + t.dwell_ms) now) t onset now)
            (some (gaze_start start now))
            now
  unfolding update
  update-look true start last s now h = ground arith
  update-look false start last s now h = ground arith

  update-away :
      (seen : Bool) (start : Option ℕ) (last s now : ℕ)
      → s ≤ now
      → update now false (machine (state_of seen t onset s) start last)
        ≡ machine (state_of seen t onset now) none now
  unfolding update
  update-away true start last s now h = refl
  update-away false start last s now h = ground arith

  run_updates-machine :
      (frames : List Frame) (seen : Bool) (start : Option ℕ) (last s : ℕ)
      → InOrder s frames
      → Begun start s
      → (run_updates frames (machine (state_of seen t onset s) start last)).state
        ≡ state_of
            (seen || (goes_on t.dwell_ms start frames || long_gaze t.dwell_ms frames))
            t
            onset
            (last_time s frames)
  run_updates-machine [] seen none last s o b = ground arith
  run_updates-machine [] seen (some g) last s o b = ground arith
  run_updates-machine ((now, false) ∷ frames) seen start last s (h, o) b =
      ap (λ m. (run_updates frames m).state) (update-away seen start last s now h)
      ∙ (run_updates-machine frames seen none now now o tt
          ∙ ap (λ x. state_of x t onset (last_time now frames)) (away start))
    where
      away :
          (g : Option ℕ)
          → (seen || (false || long_gaze t.dwell_ms frames)) ≡ (
              seen
              || (goes_on t.dwell_ms g ((now, false) ∷ frames)
                  || long_gaze t.dwell_ms ((now, false) ∷ frames)))
      away none = refl
      away (some g) = refl
  run_updates-machine ((now, true) ∷ frames) seen none last s (h, o) b =
      ap (λ m. (run_updates frames m).state) (update-look seen none last s now h)
      ∙ (run_updates-machine frames _ (some now) now now o (omega arith)
          ∙ ap (λ x. state_of x t onset (last_time now frames)) (ground arith))
  run_updates-machine ((now, true) ∷ frames) seen (some g) last s (h, o) b =
      ap (λ m. (run_updates frames m).state) (update-look seen (some g) last s now h)
      ∙ (run_updates-machine frames _ (some g) now now o (omega arith)
          ∙ ap (λ x. state_of x t onset (last_time now frames))
              (ground (arith, gaze_lasts-le t.dwell_ms g now frames)))

  update-first_look :
      update onset true (new_machine t hazard onset)
      ≡ machine (state_of (leb (onset + t.dwell_ms) onset) t onset onset) (some onset) onset
  unfolding update
  update-first_look = ground arith

  update-first_away :
      update onset false (new_machine t hazard onset)
      ≡ machine (state_of false t onset onset) none onset
  unfolding update
  update-first_away = ground arith

  -- From the first frame of a hazard on, as long as the clock does not go back: the worker counts
  -- as having noticed it exactly if some unbroken gaze has lasted the dwell time, for good; until
  -- then the state is that of the time since the first frame, and of nothing else.
  pub run_updates-state :
      (looking : Bool) (frames : List Frame)
      → InOrder onset frames
      → (run_updates ((onset, looking) ∷ frames) (new_machine t hazard onset)).state ≡ (
          if long_gaze t.dwell_ms ((onset, looking) ∷ frames)
          then noticed
          else graded t onset (last_time onset frames))
  run_updates-state true frames o =
      ap (λ m. (run_updates frames m).state) update-first_look
      ∙ (run_updates-machine frames (leb (onset + t.dwell_ms) onset) (some onset) onset onset o
            (omega arith)
          ∙ ground arith)
  run_updates-state false frames o =
      ap (λ m. (run_updates frames m).state) update-first_away
      ∙ (run_updates-machine frames false none onset onset o tt ∙ ground arith)
