-- ===== src/Models/Loading.antt =====
-- Which checkpoint a detector is built from: one that verifies, or one that ultralytics resolves.
use field_pilot_ai_submissio.Common.{
  ◌≡◌, refl, sym, ap, ◌∙◌, ◌⊎◌, inl, inr, Option, none, some, Bool, true, false, String, Bool-cases,
  text_equality,
}
use field_pilot_ai_submissio.Common.Dict
use field_pilot_ai_submissio.Common.Text.{truthy}
use mathlib.Core.Path.{subst}
use field_pilot_ai_submissio.Models.Options.{Entry}
use field_pilot_ai_submissio.Models.Files.{Bytes, Files, content, part_of}
use field_pilot_ai_submissio.Models.Registry.{
  Failure, Result, returned, raised, Transfer, pinned, require, path_in, fits, Check, is_ok,
  verify_local, install, download_verified, obtain, ensure_file, ensure_weights, resolved,
  is_registry_error, source_of, build, load_model,
}
use field_pilot_ai_submissio.Models.Integrity.{
  is_returned, ensure_weights-known, verify_local-ensure_weights,
}

-- A path that is returned is this one.
abbrev Names : String → Result → Type 0
Names path (returned q) = q ≡ path
Names path (raised failure) = Unit

build-returned :
    (loads : String → Bool) (r : Result) (s : String) → build loads r ≡ returned s → r ≡ returned s
build-returned loads (raised failure) s q = absurd (cc)
build-returned loads (returned source) s q = elim (Bool-cases (loads source)) [
  | inl there ↦ rw there at q
  | inr not_so ↦ absurd (let h : raised Failure.not_loaded ≡ returned s = rw not_so at q in cc)
]

pinned-some : (o : Option String) (s : String) → pinned o ≡ some s → o ≡ some s
pinned-some none s q = absurd (cc)
pinned-some (some t) s q = elim (Bool-cases (truthy t)) [
  | inl there ↦ rw there at q
  | inr not_so ↦ absurd (let h : none ≡ some s = rw not_so at q in cc)
]

resolved-returned :
    (o : Option String) (failure : Failure) (s : String)
    → resolved o failure ≡ returned s
    → o ≡ some s
resolved-returned none failure s q = absurd (cc)
resolved-returned (some name) failure s q = cc

-- What the path or the fallback is, if it is something.
source_of-returned :
    (entry : Entry) (failure : Failure) (s : String)
    → source_of entry (raised failure) ≡ returned s
    → entry.ultralytics_name ≡ some s
source_of-returned entry failure s q = elim (Bool-cases (is_registry_error failure)) [
  | inl caught ↦
      pinned-some entry.ultralytics_name s
        (resolved-returned (pinned entry.ultralytics_name) failure s (rw caught at q))
  | inr other ↦ absurd (let h : raised failure ≡ returned s = rw other at q in cc)
]

module _ (sha256 : Bytes → String) (urlopen : String → Transfer) where
  install-Names :
      (e : Option String) (part path : String) (done : Files × Option Failure)
      → Names path (install sha256 e part path done).1
  install-Names e part path (files, some failure) = tt
  install-Names e part path (files, none) =
      elim (Bool-cases (fits sha256 e (content (Dict.get part files)))) [
        | inl good ↦ rw good refl
        | inr bad ↦ rw bad tt
      ]

  obtain-Names :
      (u : Option String) (entry : Entry) (path : String) (files : Files)
      → Names path (obtain sha256 urlopen u entry path files).1
  unfolding download_verified
  obtain-Names none entry path files = tt
  obtain-Names (some url) entry path files =
      install-Names (pinned entry.sha256) (part_of path) path _

  ensure_file-Names :
      (entry : Entry) (path : String) (o : Option Bytes) (files : Files)
      → Names path (ensure_file sha256 urlopen false entry path o files).1
  ensure_file-Names entry path none files = obtain-Names (pinned entry.url) entry path files
  ensure_file-Names entry path (some bytes) files =
      elim (Bool-cases (fits sha256 (pinned entry.sha256) bytes)) [
        | inl good ↦ rw good refl
        | inr bad ↦ rw bad (obtain-Names (pinned entry.url) entry path _)
      ]

  -- What is loaded is the registered checkpoint, and it verifies, or it is the name that ultralytics
  -- resolves itself.
  abbrev pub Loadable : Option Check → Entry → String → String → Type 0
  Loadable check entry path source =
      ((source ≡ path) × ((c : Check) × ((check ≡ some c) × (is_ok c ≡ true))))
      ⊎ (entry.ultralytics_name ≡ some source)

  source-Loadable :
      (check : Option Check) (entry : Entry) (path source : String) (r : Result)
      → Names path r
      → (c : Check) × ((check ≡ some c) × (is_ok c ≡ is_returned r))
      → source_of entry r ≡ returned source
      → Loadable check entry path source
  source-Loadable check entry path source (returned q) named (c, (there, good)) e =
      inl ((let h : source ≡ q = cc in h ∙ named), (c, (there, good)))
  source-Loadable check entry path source (raised failure) named h e =
      inr (source_of-returned entry failure source e)

  ensure_weights-Names :
      (root key : String) (entry : Entry) (files : Files)
      → require key ≡ some entry
      → Names (path_in root entry) (ensure_weights sha256 urlopen false root key files).1
  ensure_weights-Names root key entry files known =
      let path = path_in root entry in
      subst (λ r. Names path r.1)
        (sym (ensure_weights-known sha256 urlopen root key entry files known))
        (ensure_file-Names entry path (Dict.get path files) files)

  load_model-known :
      (loads : String → Bool) (root key : String) (entry : Entry) (files : Files)
      → require key ≡ some entry
      → let done = ensure_weights sha256 urlopen false root key files in
        load_model sha256 urlopen loads root key files
        ≡ (done.0, build loads (source_of entry done.1))
  unfolding load_model
  load_model-known loads root key entry files known = rw (known, load_model) refl

  -- What a detector of the registry is built from is the checkpoint at its path, which the check
  -- of the local file accepts, or the name that the entry leaves to ultralytics.
  pub load_model-Loadable :
      (loads : String → Bool) (root key source : String) (entry : Entry) (files : Files)
      → require key ≡ some entry
      → (load_model sha256 urlopen loads root key files).1 ≡ returned source
      → Loadable
          (verify_local sha256 root key (load_model sha256 urlopen loads root key files).0)
          entry
          (path_in root entry)
          source
  load_model-Loadable loads root key source entry files known e =
      let done = ensure_weights sha256 urlopen false root key files in
      let path = path_in root entry in
      let opened = load_model-known loads root key entry files known in
      subst (λ r. Loadable (verify_local sha256 root key r.0) entry path source) (sym opened)
        (source-Loadable (verify_local sha256 root key done.0) entry path source done.1
          (ensure_weights-Names root key entry files known)
          (verify_local-ensure_weights sha256 urlopen root key entry files known)
          (build-returned loads (source_of entry done.1) source (sym (ap (λ r. r.1) opened) ∙ e)))
