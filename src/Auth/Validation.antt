-- ===== src/Auth/Validation.antt =====
-- fieldpilot/auth/service.py: roles, errors, and the checks of what callers pass in. A text that is
-- passed in stands for `str(value or "")`; `str.lower` is a parameter where it is used.
use field_pilot_ai_submissio.Common.{
  ℕ, suc, Option, none, some, Bool, true, false, List, [], ◌∷◌, String, text_equality,
  number_equality, ◌==◌, leb, if◌then◌else◌, ◌&&◌, ◌||◌, not,
}
use field_pilot_ai_submissio.Common.Text.{strip, truthy, is_space}
use Prim.Native.Char.{Char, code}

pub data Role : Type 0 where
  worker : Role
  site_manager : Role

abbrev pub role_value : Role → String
role_value worker = "worker"
role_value site_manager = "site_manager"

-- ValueError, and the exceptions of the module.
pub data Error : Type 0 where
  value_error : Error
  auth_error : Error
  invalid_credentials : Error
  not_authenticated : Error
  forbidden : Error
  duplicate_user : Error

-- The HTTP status that each carries; a plain ValueError is mapped to 400.
abbrev pub status_code : Error → ℕ
status_code value_error = 400
status_code auth_error = 400
status_code invalid_credentials = 401
status_code not_authenticated = 401
status_code forbidden = 403
status_code duplicate_user = 409

-- A result, or the exception that is raised.
pub data Result (A : Type 0) : Type 0 where
  ok : A → Result A
  raised : Error → Result A

abbrev in_range : ℕ → ℕ → ℕ → Bool
in_range a b c = leb a c && leb c b

-- `[a-zA-Z0-9]`
abbrev alphanumeric : Char → Bool
alphanumeric c = in_range 48 57 (code c) || in_range 65 90 (code c) || in_range 97 122 (code c)

-- `[a-zA-Z0-9._@+-]`
abbrev name_char : Char → Bool
name_char c =
    alphanumeric c || code c == 46 || code c == 95 || code c == 64 || code c == 43 || code c == 45

-- `[a-zA-Z0-9._-]`
abbrev id_char : Char → Bool
id_char c = alphanumeric c || code c == 46 || code c == 95 || code c == 45

unfoldable pub all_chars : (Char → Bool) → String → Bool
all_chars p String.[] = true
all_chars p (String.◌∷◌ c s) = p c && all_chars p s

unfoldable pub count_chars : String → ℕ
count_chars String.[] = 0
count_chars (String.◌∷◌ c s) = suc (count_chars s)

-- A first character that is alphanumeric, and then from `low` to 63 that pass the test.
abbrev matches : (Char → Bool) → ℕ → String → Bool
matches p low String.[] = false
matches p low (String.◌∷◌ c s) = alphanumeric c && all_chars p s && in_range low 63 (count_chars s)

-- `_USERNAME_RE`
unfoldable pub username_matches : String → Bool
unfolding all_chars count_chars
username_matches s = matches name_char 1 s

-- `_WORKER_ID_RE`
unfoldable pub worker_id_matches : String → Bool
unfolding all_chars count_chars
worker_id_matches s = matches id_char 0 s

unfoldable pub clean_username : String → Option String
unfolding strip username_matches
clean_username username = if username_matches (strip username) then some (strip username) else none

-- No identifier is `some none`, and an invalid one `none`.
unfoldable pub clean_worker_id : Option String → Option (Option String)
unfolding strip worker_id_matches
clean_worker_id none = some none
clean_worker_id (some id) =
    if not (truthy (strip id))
    then some none
    else (if worker_id_matches (strip id) then some (some (strip id)) else none)

unfoldable pub clean_role : (String → String) → String → Option Role
unfolding strip
clean_role lower role =
    if lower (strip role) == "worker"
    then some worker
    else (if lower (strip role) == "site_manager" then some site_manager else none)

unfoldable pub password_ok : String → Bool
unfolding count_chars
password_ok password = leb 8 (count_chars password)

-- `raw.split()`: the words between the white space.
abbrev add_char : Char → Bool → List String → List String
add_char c true [] = String.◌∷◌ c String.[] ∷ []
add_char c true (w ∷ ws) = String.◌∷◌ c w ∷ ws
add_char c false ws = String.◌∷◌ c String.[] ∷ ws

-- Whether a text begins within a word.
abbrev begins_word : String → Bool
begins_word String.[] = false
begins_word (String.◌∷◌ c s) = not (is_space (code c))

unfoldable pub split_words : String → List String
split_words String.[] = []
split_words (String.◌∷◌ c s) =
    let rest = split_words s in if is_space (code c) then rest else add_char c (begins_word s) rest

abbrev pub known_schemes : List String
known_schemes = "bearer" ∷ "basic" ∷ "digest" ∷ "negotiate" ∷ "ntlm" ∷ "oauth" ∷ "token" ∷ []

abbrev pub in_list : String → List String → Bool
in_list s [] = false
in_list s (t ∷ ts) = t == s || in_list s ts

abbrev pub token_of : (String → String) → List String → Option String
token_of lower [] = none
token_of lower (a ∷ []) = if in_list (lower a) known_schemes then none else some a
token_of lower (a ∷ b ∷ []) =
    if lower a == "bearer" then (if truthy b then some b else none) else none
token_of lower (a ∷ b ∷ c ∷ more) = none

unfoldable pub bearer_token : (String → String) → Option String → Option String
unfolding split_words strip
bearer_token lower none = none
bearer_token lower (some authorization) = token_of lower (split_words (strip authorization))
