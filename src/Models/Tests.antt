-- ===== src/Models/Tests.antt =====
-- A checkpoint that is on the disk with other bytes than the pinned ones, and is served again.
use field_pilot_ai_submissio.Common.{
  ◌≡◌, refl, ℕ, ◌+◌, nat_beq, if◌then◌else◌, none, some, Bool, true, false, [], ◌∷◌, String,
  text_equality,
}
use field_pilot_ai_submissio.Common.Dict
use field_pilot_ai_submissio.Models.Options.{ppe_css}
use field_pilot_ai_submissio.Models.Files.{Bytes, Files, part_of}
use field_pilot_ai_submissio.Models.Registry.{
  returned, raised, Failure, Transfer, require, path_in, Check, is_ok, verify_local,
  download_verified, ensure_weights, load_model,
}
use field_pilot_ai_submissio.Models.Integrity.{
  is_returned, get-ensure_weights, verify_local-ensure_weights,
}
use field_pilot_ai_submissio.Models.Loading.{Loadable, load_model-Loadable}

abbrev sum : Bytes → ℕ
sum [] = 0
sum (b ∷ bytes) = b + sum bytes

-- A digest that tells the pinned bytes from others.
abbrev digest : Bytes → String
digest bytes =
    if nat_beq (sum bytes) 14
    then "2419700bbe3b8d38f9000655d9cf952a4bc93ef6c143baf8b49a0abde5d0760f"
    else "0"

abbrev urlopen : String → Transfer
urlopen url = Transfer.served ((7 ∷ []) ∷ (7 ∷ []) ∷ []) false

abbrev wrong : String → Transfer
wrong url = Transfer.served ((7 ∷ []) ∷ (8 ∷ []) ∷ []) false

abbrev files : Files
files = ("models/ppe_css.pt", 1 ∷ []) ∷ ("models/other.pt", 2 ∷ []) ∷ []

ppe_css_known : require "ppe_css" ≡ some ppe_css
unfolding require Dict.get
ppe_css_known = refl

installed_run : ensure_weights digest urlopen false "models" "ppe_css" files ≡ (
  ("models/other.pt", 2 ∷ []) ∷ ("models/ppe_css.pt", 7 ∷ 7 ∷ []) ∷ [],
  returned "models/ppe_css.pt",
)
unfolding ensure_weights download_verified require Dict.get Dict.set Dict.pop
installed_run = refl

discarded_run :
    ensure_weights digest wrong false "models" "ppe_css" files
    ≡ (("models/other.pt", 2 ∷ []) ∷ [], raised Failure.wrong_digest)
unfolding ensure_weights download_verified require Dict.get Dict.set Dict.pop
discarded_run = refl

verify_local-ensure_weights_example :
    (c : Check) × ((verify_local digest "models" "ppe_css"
          (ensure_weights digest urlopen false "models" "ppe_css" files).0
        ≡ some c)
      × (is_ok c ≡ is_returned (ensure_weights digest urlopen false "models" "ppe_css" files).1))
verify_local-ensure_weights_example =
    verify_local-ensure_weights digest urlopen "models" "ppe_css" ppe_css files ppe_css_known

no_part : Dict.get (part_of (path_in "models" ppe_css)) files ≡ none
unfolding Dict.get
no_part = refl

get-ensure_weights_example :
    Dict.get "models/other.pt" (ensure_weights digest wrong true "models" "ppe_css" files).0
    ≡ Dict.get "models/other.pt" files
get-ensure_weights_example =
    get-ensure_weights digest wrong true "models" "ppe_css" "models/other.pt" ppe_css files
      ppe_css_known no_part refl

abbrev loads : String → Bool
loads source = true

loaded_run :
    (load_model digest urlopen loads "models" "ppe_css" files).1 ≡ returned "models/ppe_css.pt"
unfolding load_model ensure_weights download_verified require Dict.get Dict.set Dict.pop
loaded_run = refl

load_model-Loadable_example :
    Loadable digest urlopen
      (verify_local digest "models" "ppe_css"
        (load_model digest urlopen loads "models" "ppe_css" files).0)
      ppe_css
      "models/ppe_css.pt"
      "models/ppe_css.pt"
load_model-Loadable_example =
    load_model-Loadable digest urlopen loads "models" "ppe_css" "models/ppe_css.pt" ppe_css files
      ppe_css_known loaded_run
