-- ===== src/Models/Registry.antt =====
-- fieldpilot/models_registry/registry.py: the verified download of checkpoints. What a URL serves, and
-- the hexadecimal SHA-256 of bytes, are parameters; a ceiling is computed exactly.
use field_pilot_ai_submissio.Common.{
  ℕ, ◌+◌, ◌*◌, ◌/◌, Option, none, some, Bool, true, false, List, [], ◌∷◌, map, String,
  text_equality, ◌==◌, ltb, if◌then◌else◌, length,
}
use field_pilot_ai_submissio.Common.Dict
use field_pilot_ai_submissio.Common.Text.{truthy}
use field_pilot_ai_submissio.Models.Options.{Entry, model_options}
use field_pilot_ai_submissio.Models.Files.{
  Bytes, Files, content, is_file, unlink, append, replace, part_of,
}
use Prim.Native.String.{◌++◌}

-- A ModelRegistryError, or another exception of the transfer.
pub data Failure : Type 0 where
  unknown_key exceeded_size wrong_digest unobtainable not_loaded transfer_error : Failure

pub data Result : Type 0 where
  returned : String → Result
  raised : Failure → Result

-- What the URL serves: nothing, as the request fails, or chunks, up to the end or to an exception.
pub data Transfer : Type 0 where
  refused : Transfer
  served : List Bytes → Bool → Transfer

-- A text that is there and not empty.
abbrev pub pinned : Option String → Option String
pinned none = none
pinned (some s) = if truthy s then some s else none

-- `_require`
unfoldable pub require : String → Option Entry
require key = Dict.get key model_options

-- `root / option["weights"]`
abbrev pub path_in : String → Entry → String
path_in root entry = root ++ "/" ++ entry.weights

unfoldable pub weights_path : String → String → Option String
unfolding require
weights_path root key = elim (require key) [ none ↦ none | some e ↦ some (path_in root e) ]

-- `get_option`
unfoldable pub get_option : String → Option Entry
get_option key = Dict.get key model_options

pub record Listed : Type 0 where
  pub key : String
  pub option : Entry
  pub path : String
  pub downloaded : Bool
  pub size_bytes : Option ℕ

abbrev size_of : Option Bytes → Option ℕ
size_of none = none
size_of (some bytes) = some (length bytes)

unfoldable pub list_models : String → Files → List Listed
list_models root files =
    map
      (λ (key, entry). record {
        key = key;
        option = entry;
        path = path_in root entry;
        downloaded = is_file (path_in root entry) files;
        size_bytes = size_of (Dict.get (path_in root entry) files);
      })
      model_options

-- The ceiling of a download: the declared size with fifteen per cent of headroom, and a slack.
abbrev pub size_or_default : Option ℕ → ℕ
size_or_default none = 100000
size_or_default (some n) = n

abbrev pub ceiling_of : Entry → ℕ
ceiling_of entry = size_or_default entry.size_mb * 1024 * 1024 * 115 / 100000 + 1024

-- The loop over the chunks: the files, and the exception that ends it.
unfoldable pub write_chunks : ℕ → String → ℕ → List Bytes → Bool → Files → Files × Option Failure
write_chunks ceiling part total [] broken files =
    (files, if broken then some transfer_error else none)
write_chunks ceiling part total ([] ∷ chunks) broken files = (files, none)
write_chunks ceiling part total ((b ∷ bytes) ∷ chunks) broken files =
    let more = total + length (b ∷ bytes) in
    let rest = write_chunks ceiling part more chunks broken (append part (b ∷ bytes) files) in
    if ltb ceiling more then (files, some exceeded_size) else rest

-- What `verify_local` says of a checkpoint.
pub data Check : Type 0 where
  absent : Check
  unchecked : ℕ → Check
  mismatch : String → String → Check
  verified : String → Check

abbrev pub is_ok : Check → Bool
is_ok absent = false
is_ok (unchecked n) = true
is_ok (mismatch expected actual) = false
is_ok (verified expected) = true

-- `except ModelRegistryError` takes every failure but another exception.
abbrev pub is_registry_error : Failure → Bool
is_registry_error transfer_error = false
is_registry_error _ = true

-- The fallback of `load_model` to a name that ultralytics resolves.
abbrev pub resolved : Option String → Failure → Result
resolved none failure = raised failure
resolved (some name) failure = returned name

abbrev pub source_of : Entry → Result → Result
source_of entry (returned path) = returned path
source_of entry (raised failure) =
    if is_registry_error failure
    then resolved (pinned entry.ultralytics_name) failure
    else raised failure

-- What `YOLO` is given, if it loads it.
abbrev pub build : (String → Bool) → Result → Result
build loads (raised failure) = raised failure
build loads (returned source) = if loads source then returned source else raised not_loaded

module _ (sha256 : Bytes → String) where
  -- The digest of the bytes is the pinned one, if one is pinned.
  abbrev pub fits : Option String → Bytes → Bool
  fits none bytes = true
  fits (some expected) bytes = sha256 bytes == expected

  abbrev pub check_bytes : Option String → Bytes → Check
  check_bytes none bytes = unchecked (length bytes)
  check_bytes (some expected) bytes =
      if sha256 bytes == expected then verified expected else mismatch expected (sha256 bytes)

  abbrev pub check_file : Option String → Option Bytes → Check
  check_file expected none = absent
  check_file expected (some bytes) = check_bytes expected bytes

  -- `verify_local_sync`: nothing for an unknown key
  unfoldable pub verify_local : String → String → Files → Option Check
  verify_local root key files = elim (require key) [
    | none ↦ none
    | some entry ↦ some (check_file (pinned entry.sha256) (Dict.get (path_in root entry) files))
  ]

  -- The end of `_download_verified`: the digest, and the renaming.
  abbrev pub install : Option String → String → String → Files × Option Failure → Files × Result
  install expected part destination (files, some failure) = (unlink part files, raised failure)
  install expected part destination (files, none) =
      if fits expected (content (Dict.get part files))
      then (unlink part (replace part destination files), returned destination)
      else (unlink part files, raised wrong_digest)

  module _ (urlopen : String → Transfer) where
    abbrev pub transfer : Entry → String → Transfer → Files → Files × Option Failure
    transfer entry part refused files = (files, some transfer_error)
    transfer entry part (served chunks broken) files =
        write_chunks (ceiling_of entry) part 0 chunks broken (Dict.set part [] files)

    unfoldable pub download_verified : Entry → String → String → Files → Files × Result
    unfolding write_chunks
    download_verified entry url destination files =
        let part = part_of destination in
        install (pinned entry.sha256) part destination (transfer entry part (urlopen url) files)

    -- The download, if there is a URL.
    abbrev pub obtain : Option String → Entry → String → Files → Files × Result
    obtain none entry path files = (files, raised unobtainable)
    obtain (some url) entry path files = download_verified entry url path files

    abbrev pub ensure_file : Bool → Entry → String → Option Bytes → Files → Files × Result
    ensure_file force entry path none files = obtain (pinned entry.url) entry path files
    ensure_file force entry path (some bytes) files =
        let fetched = obtain (pinned entry.url) entry path files in
        let replaced = obtain (pinned entry.url) entry path (unlink path files) in
        if force
        then fetched
        else if fits (pinned entry.sha256) bytes
        then (files, returned path)
        else replaced

    unfoldable pub ensure_weights : Bool → String → String → Files → Files × Result
    ensure_weights force root key files = elim (require key) [
      | none ↦ (files, raised unknown_key)
      | some entry ↦
          let path = path_in root entry in ensure_file force entry path (Dict.get path files) files
    ]

    unfoldable pub load_model : (String → Bool) → String → String → Files → Files × Result
    unfolding ensure_weights
    load_model loads root key files = elim (require key) [
      | none ↦ (files, raised unknown_key)
      | some entry ↦
          let done = ensure_weights false root key files in
          (done.0, build loads (source_of entry done.1))
    ]
