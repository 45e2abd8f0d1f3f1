-- ===== src/Auth/Uniqueness.antt =====
-- No two accounts have the same name.
use field_pilot_ai_submissio.Common.{
  ◌≡◌, Bool, false, List, [], ◌∷◌, String, text_equality, ◌==◌, ◌||◌,
}
use field_pilot_ai_submissio.Storage.Table
use field_pilot_ai_submissio.Auth.Accounts.{User}
use field_pilot_ai_submissio.Auth.Service.{Auth}

-- Some account has the name.
unfoldable pub has_name : String → List User → Bool
has_name name [] = false
has_name name (u ∷ users) = u.username_lower == name || has_name name users

abbrev pub UniqueNames : List User → Type 0
UniqueNames [] = Unit
UniqueNames (u ∷ users) = (has_name u.username_lower users ≡ false) × UniqueNames users
