-- ===== src/Models/Integrity.antt =====
-- What a download leaves on the disk: a checkpoint that verifies, or none, and no other file changed.
use field_pilot_ai_submissio.Common.{
  ◌≡◌, refl, sym, ap, ◌∙◌, ℕ, suc, ◌+◌, ◌++◌, length, inl, inr, Option, none, some, Bool, true,
  false, List, [], ◌∷◌, String, text_equality, ◌==◌, ==_iff, ==_refl, if◌then◌else◌, arith,
  Bool-cases,
}
use field_pilot_ai_submissio.Common.Dict
use field_pilot_ai_submissio.Common.Dict.{get-set, get-pop, get-set_self}
use field_pilot_ai_submissio.Models.Options.{Entry}
use field_pilot_ai_submissio.Models.Files.{
  Bytes, Files, content, unlink, append, replace, part_of, part_of-destination,
}
use field_pilot_ai_submissio.Models.Registry.{
  Failure, wrong_digest, unobtainable, Result, returned, raised, Transfer, refused, served, pinned,
  require, path_in, write_chunks, ceiling_of, Check, is_ok, fits, check_bytes, check_file,
  verify_local, install, transfer, download_verified, obtain, ensure_file, ensure_weights,
}

abbrev pub is_returned : Result → Bool
is_returned (returned path) = true
is_returned (raised failure) = false

get-write_chunks :
    (q part : String) (ceiling total : ℕ) (chunks : List Bytes) (broken : Bool) (files : Files)
    → (part == q) ≡ false
    → Dict.get q (write_chunks ceiling part total chunks broken files).0 ≡ Dict.get q files
unfolding write_chunks
get-write_chunks q part ceiling total [] broken files other = refl
get-write_chunks q part ceiling total ([] ∷ chunks) broken files other = refl
get-write_chunks q part ceiling total ((b ∷ bytes) ∷ chunks) broken files other =
    let more = total + suc (length bytes) in
    let rest =
      get-write_chunks q part ceiling more chunks broken (append part (b ∷ bytes) files) other in
    ground (arith, rest, get-set part q (content (Dict.get part files) ++ (b ∷ bytes)) files)

module _ (sha256 : Bytes → String) where
  is_ok-check_bytes :
      (e : Option String) (bytes : Bytes) → is_ok (check_bytes sha256 e bytes) ≡ fits sha256 e bytes
  is_ok-check_bytes none bytes = refl
  is_ok-check_bytes (some d) bytes = ground arith

  -- The check of what stands at the path says whether the path was returned.
  Honest : Option String → String → Files × Result → Type 0
  Honest e path (files, result) =
      is_ok (check_file sha256 e (Dict.get path files)) ≡ is_returned result

  absent-Honest :
      (e : Option String) (path : String) (files : Files) (failure : Failure)
      → Dict.get path files ≡ none
      → Honest e path (files, raised failure)
  unfolding Honest
  absent-Honest e path files failure h = rw h refl

  install-Honest :
      (e : Option String) (path : String) (done : Files × Option Failure)
      → Dict.get path done.0 ≡ none
      → Honest e path (install sha256 e (part_of path) path done)
  unfolding Honest
  install-Honest e path (files, some failure) h =
      absent-Honest e path _ failure
        (get-pop (part_of path) path files ∙ rw (part_of-destination path) h)
  install-Honest e path (files, none) h =
      let bytes = content (Dict.get (part_of path) files) in
      let there : Dict.get path (unlink (part_of path) (replace (part_of path) path files))
          ≡ some bytes =
        get-pop (part_of path) path (replace (part_of path) path files)
        ∙ rw (part_of-destination path) (get-set_self path bytes (unlink (part_of path) files)) in
      elim (Bool-cases (fits sha256 e bytes)) [
        | inl good ↦ rw (good, there) (is_ok-check_bytes e bytes ∙ good)
        | inr bad ↦ rw bad (
            absent-Honest e path _ wrong_digest
              (get-pop (part_of path) path files ∙ rw (part_of-destination path) h))
      ]

  module _ (urlopen : String → Transfer) where
    get-transfer :
        (entry : Entry) (q part : String) (t : Transfer) (files : Files)
        → (part == q) ≡ false
        → Dict.get q (transfer sha256 urlopen entry part t files).0 ≡ Dict.get q files
    get-transfer entry q part refused files other = refl
    get-transfer entry q part (served chunks broken) files other =
        get-write_chunks q part (ceiling_of entry) 0 chunks broken (Dict.set part [] files) other
        ∙ get-set part q [] files
        ∙ rw other refl

    obtain-Honest :
        (u : Option String) (entry : Entry) (path : String) (files : Files)
        → Dict.get path files ≡ none
        → Honest (pinned entry.sha256) path (obtain sha256 urlopen u entry path files)
    unfolding download_verified
    obtain-Honest none entry path files h = absent-Honest _ path files unobtainable h
    obtain-Honest (some url) entry path files h =
        install-Honest (pinned entry.sha256) path _ (
          get-transfer entry path (part_of path) (urlopen url) files (part_of-destination path) ∙ h)

    ensure_file-Honest :
        (entry : Entry) (path : String) (o : Option Bytes) (files : Files)
        → Dict.get path files ≡ o
        → Honest (pinned entry.sha256) path (ensure_file sha256 urlopen false entry path o files)
    unfolding Honest
    ensure_file-Honest entry path none files h = obtain-Honest (pinned entry.url) entry path files h
    ensure_file-Honest entry path (some bytes) files h =
        elim (Bool-cases (fits sha256 (pinned entry.sha256) bytes)) [
          | inl good ↦ rw (good, h) (is_ok-check_bytes (pinned entry.sha256) bytes ∙ good)
          | inr bad ↦ rw bad (
              obtain-Honest (pinned entry.url) entry path (unlink path files)
                (get-pop path path files ∙ rw (==_refl path) refl))
        ]

    get-install :
        (e : Option String) (path part q : String) (done : Files × Option Failure)
        → (path == q) ≡ false
        → Dict.get q (install sha256 e part path done).0
          ≡ (if part == q then none else Dict.get q done.0)
    get-install e path part q (files, some failure) other = get-pop part q files
    get-install e path part q (files, none) other =
        elim (Bool-cases (fits sha256 e (content (Dict.get part files)))) [
          | inl good ↦ rw good (
              get-pop part q (replace part path files)
              ∙ ground (
                arith,
                other,
                get-set path q (content (Dict.get part files)) (unlink part files),
                get-pop part q files,
              ))
          | inr bad ↦ rw bad (get-pop part q files)
        ]

    -- No partial file before, none after; and every other file as before.
    get-obtain :
        (u : Option String) (entry : Entry) (path q : String) (files : Files)
        → Dict.get (part_of path) files ≡ none
        → (path == q) ≡ false
        → Dict.get q (obtain sha256 urlopen u entry path files).0 ≡ Dict.get q files
    unfolding download_verified
    get-obtain none entry path q files clean other = refl
    get-obtain (some url) entry path q files clean other =
        let e =
          get-install (pinned entry.sha256) path (part_of path) q
            (transfer sha256 urlopen entry (part_of path) (urlopen url) files) other in
        elim (Bool-cases (part_of path == q)) [
          | inl partial ↦
              e
              ∙ rw partial
                  (sym clean ∙ ap (λ k. Dict.get k files) ((==_iff (part_of path) q).0 partial))
          | inr away ↦ e ∙ rw away (get-transfer entry q (part_of path) (urlopen url) files away)
        ]

    get-ensure_file :
        (force : Bool) (entry : Entry) (path q : String) (o : Option Bytes) (files : Files)
        → Dict.get (part_of path) files ≡ none
        → (path == q) ≡ false
        → Dict.get q (ensure_file sha256 urlopen force entry path o files).0 ≡ Dict.get q files
    get-ensure_file force entry path q none files clean other =
        get-obtain (pinned entry.url) entry path q files clean other
    get-ensure_file true entry path q (some bytes) files clean other =
        get-obtain (pinned entry.url) entry path q files clean other
    get-ensure_file false entry path q (some bytes) files clean other =
        elim (Bool-cases (fits sha256 (pinned entry.sha256) bytes)) [
          | inl good ↦ rw good refl
          | inr bad ↦ rw bad (
              get-obtain (pinned entry.url) entry path q (unlink path files)
                (get-pop path (part_of path) files ∙ ground (arith, clean)) other
              ∙ (get-pop path q files ∙ rw other refl))
        ]

    -- Asking for a checkpoint of the registry, with force or without, whether it succeeds or
    -- fails, changes no file but the checkpoint's, and leaves no partial file behind if there was
    -- none.
    pub get-ensure_weights :
        (force : Bool) (root key q : String) (entry : Entry) (files : Files)
        → require key ≡ some entry
        → Dict.get (part_of (path_in root entry)) files ≡ none
        → (path_in root entry == q) ≡ false
        → Dict.get q (ensure_weights sha256 urlopen force root key files).0 ≡ Dict.get q files
    unfolding ensure_weights
    get-ensure_weights force root key q entry files known clean other =
        rw (known, ensure_weights)
          (get-ensure_file force entry (path_in root entry) q (Dict.get (path_in root entry) files)
            files clean other)

    pub verify_local-known :
        (root key : String) (entry : Entry) (files : Files)
        → require key ≡ some entry
        → verify_local sha256 root key files
          ≡ some (check_file sha256 (pinned entry.sha256) (Dict.get (path_in root entry) files))
    unfolding verify_local
    verify_local-known root key entry files known = rw (known, verify_local) refl

    pub ensure_weights-known :
        (root key : String) (entry : Entry) (files : Files)
        → require key ≡ some entry
        → let path = path_in root entry in
          ensure_weights sha256 urlopen false root key files
          ≡ ensure_file sha256 urlopen false entry path (Dict.get path files) files
    unfolding ensure_weights
    ensure_weights-known root key entry files known = rw (known, ensure_weights) refl

    -- After a checkpoint of the registry is asked for, without force, the check of the local file
    -- accepts what stands at its path exactly if the path was returned: when any error is raised,
    -- be it of the transfer, the declared size, the digest or a missing URL, no checkpoint that
    -- the check accepts is left.
    pub verify_local-ensure_weights :
        (root key : String) (entry : Entry) (files : Files)
        → require key ≡ some entry
        → let done = ensure_weights sha256 urlopen false root key files in
          (c : Check) × ((verify_local sha256 root key done.0 ≡ some c)
            × (is_ok c ≡ is_returned done.1))
    unfolding Honest
    verify_local-ensure_weights root key entry files known =
        let path = path_in root entry in
        let o = Dict.get path files in
        let done = ensure_file sha256 urlopen false entry path o files in
        rw (ensure_weights-known root key entry files known) (
          _,
          (
            verify_local-known root key entry done.0 known,
            ensure_file-Honest entry path o files refl,
          ),
        )
