-- ===== src/Commands.antt =====
-- internal/commands/commands.go: which messages are commands of a group.
pub mod Normal
use message_sync.Base.{Bool, true, false, ◌||◌, List, [], ◌∷◌, if◌then◌else◌, ◌==◌, any, codes}
use message_sync.Texts.{Text, eq_text, has_prefix, trim_space, fields}

abbrev pub is_first : Text → List Text → Bool
is_first word [] = false
is_first word (first ∷ rest) = first == word

unfoldable pub match_local : Text → Text → Bool
match_local text configured =
    is_first (codes "/local") (fields text) || any (λ p. has_prefix text p) (fields configured)

abbrev pub default_trigger : Text
default_trigger = codes "aggregate-response"

unfoldable pub match_summary : Text → Text → Bool
match_summary text configured =
    let trimmed = trim_space text in
    trimmed == codes "/summary"
    || any (λ trigger. trimmed == trigger)
        (fields (if trim_space configured == [] then default_trigger else configured))
