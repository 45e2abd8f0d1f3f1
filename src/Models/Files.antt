-- ===== src/Models/Files.antt =====
-- Files by their paths, and what fieldpilot/models_registry/registry.py does with them. Errors of the
-- disk are left out.
use field_pilot_ai_submissio.Common.{
  ◌≡◌, sym, ap, ◌∙◌, ℕ, Option, none, some, Bool, false, List, [], ◌++◌, String, text_equality,
  ◌==◌, ==_iff, Bool-cases, inl, inr, is_some,
}
use field_pilot_ai_submissio.Common.Dict
use field_pilot_ai_submissio.Common.Dict.{Dict}
use Prim.Native.String
use Prim.Native.String.append as joining

abbrev pub Bytes : Type 0
Bytes = List ℕ

abbrev pub Files : Type 0
Files = Dict String Bytes

-- What a read of the whole file gives; nothing to read is no byte.
abbrev pub content : Option Bytes → Bytes
content none = []
content (some bytes) = bytes

-- `path.is_file()`
abbrev pub is_file : String → Files → Bool
is_file path files = is_some (Dict.get path files)

-- `path.unlink(missing_ok=True)`
abbrev pub unlink : String → Files → Files
unlink path files = Dict.pop path files

-- `fh.write(chunk)` at the end of the file
abbrev pub append : String → Bytes → Files → Files
append path chunk files = Dict.set path (content (Dict.get path files) ++ chunk) files

-- `part.replace(destination)`
abbrev pub replace : String → String → Files → Files
replace part destination files =
    Dict.set destination (content (Dict.get part files)) (Dict.pop part files)

-- `destination.with_suffix(destination.suffix + ".part")`
abbrev pub part_of : String → String
part_of destination = Prim.Native.String.◌++◌ destination ".part"

tail : String → String
tail String.[] = String.[]
tail (String.◌∷◌ c s) = s

part_of-other : (s : String) → part_of s ≡ s → ⊥
unfolding tail
part_of-other String.[] q = absurd (cc)
part_of-other (String.◌∷◌ c s) q = part_of-other s (ap tail (sym (joining.cons c s ".part") ∙ q))

pub part_of-destination : (s : String) → (part_of s == s) ≡ false
part_of-destination s = elim (Bool-cases (part_of s == s)) [
  | inl same ↦ absurd (part_of-other s ((==_iff (part_of s) s).0 same))
  | inr other ↦ other
]
