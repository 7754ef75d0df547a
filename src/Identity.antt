-- ===== src/Identity.antt =====
-- internal/identity/alias.go: the references to participants in a text, `@{…}`. Texts are bytes.
pub mod Spans
pub mod Found
use message_sync.Base.{
  ℕ, zero, suc, ◌+◌, ◌-◌, ◌%◌, Bool, true, false, not, ◌&&◌, ◌||◌, Option, none, some, List, [],
  ◌∷◌, ◌++◌, leb, ltb, if◌then◌else◌, ◌==◌, eq_nat, all, any, length, codes,
}
use message_sync.Texts.{Text, eq_text}

abbrev is_letter : ℕ → Bool
is_letter c = (leb b'A' c && leb c b'Z') || (leb b'a' c && leb c b'z')

abbrev is_digit : ℕ → Bool
is_digit c = leb b'0' c && leb c b'9'

-- The parts between the spaces of a text.
unfoldable pub split_spaces : Text → List Text
split_spaces [] = [] ∷ []
split_spaces (c ∷ cs) =
    let parts = split_spaces cs in
    if c == 32
    then [] ∷ parts
    else elim parts [ [] ↦ (c ∷ []) ∷ [] | first ∷ rest ↦ (c ∷ first) ∷ rest ]

-- `[A-Za-z]{2,16}`
abbrev pub valid_word : Text → Bool
valid_word w = leb 2 (length w) && leb (length w) 16 && all is_letter w

-- `[2-9]|[1-9][0-9]{1,14}`
abbrev pub valid_tier : Text → Bool
valid_tier [] = false
valid_tier (c ∷ []) = leb b'2' c && leb c b'9'
valid_tier (c ∷ d ∷ ds) = leb b'1' c && leb c b'9' && all is_digit (d ∷ ds) && leb (length ds) 13

abbrev pub valid_alias_parts : List Text → Bool
valid_alias_parts [] = false
valid_alias_parts (a ∷ []) = false
valid_alias_parts (a ∷ b ∷ []) = valid_word a && valid_word b
valid_alias_parts (a ∷ b ∷ t ∷ []) = valid_word a && valid_word b && valid_tier t
valid_alias_parts (a ∷ b ∷ t ∷ u ∷ rest) = false

-- The text before its last byte, where this is a closing brace.
abbrev pub before_brace : Text → Option Text
before_brace [] = none
before_brace (c ∷ []) = if c == b'}' then some [] else none
before_brace (c ∷ d ∷ rest) =
    let later = before_brace (d ∷ rest) in
    elim later [ none ↦ none | some inside ↦ some (c ∷ inside) ]

-- `ParseAliasToken`: the alias of a whole token.
unfoldable pub parse_alias_token : Text → Option Text
unfolding split_spaces
parse_alias_token [] = none
parse_alias_token (at_sign ∷ []) = none
parse_alias_token (at_sign ∷ brace ∷ rest) =
    if at_sign == b'@' && brace == b'{'
    then elim (before_brace rest) [
      | none ↦ none
      | some alias ↦ if valid_alias_parts (split_spaces alias) then some alias else none
    ]
    else none

abbrev pub is_some {ℓ} : {A : Type ℓ} → Option A → Bool
is_some none = false
is_some (some a) = true

-- `ValidAlias`
unfoldable pub valid_alias : Text → Bool
unfolding parse_alias_token
valid_alias alias =
    is_some (parse_alias_token (b'@' ∷ b'{' ∷ alias ++ b'}' ∷ []))
    && not (any (λ c. c == b'{' || c == b'}') alias)

abbrev pub drop : ℕ → Text → Text
drop zero text = text
drop (suc n) [] = []
drop (suc n) (c ∷ cs) = drop n cs

abbrev pub take : ℕ → Text → Text
take zero text = []
take (suc n) [] = []
take (suc n) (c ∷ cs) = c ∷ take n cs

abbrev plus_one : Option ℕ → Option ℕ
plus_one none = none
plus_one (some n) = some (suc n)

-- `strings.Index(text, "@{")`
unfoldable pub index_open : Text → Option ℕ
index_open [] = none
index_open (c ∷ []) = none
index_open (c ∷ d ∷ rest) =
    let later = index_open (d ∷ rest) in if c == b'@' && d == b'{' then some 0 else plus_one later

-- `strings.IndexByte(text, '}')`
unfoldable pub index_close : Text → Option ℕ
index_close [] = none
index_close (c ∷ cs) = let later = index_close cs in if c == b'}' then some 0 else plus_one later

-- The backslashes at the end of a text; those of the part read before are counted.
unfoldable pub count_backslashes : ℕ → Text → ℕ
count_backslashes n [] = n
count_backslashes n (c ∷ cs) = count_backslashes (if c == 92 then suc n else 0) cs

abbrev pub is_token : Text → ℕ → ℕ → Bool
is_token text begin end =
    is_some (parse_alias_token (take (end - begin) (drop begin text)))
    && count_backslashes 0 (take begin text) % 2 == 0

abbrev pub with_span : Bool → ℕ × ℕ → Option (List (ℕ × ℕ)) → Option (List (ℕ × ℕ))
with_span found span none = none
with_span found span (some later) = some (if found then span ∷ later else later)

-- The loop of `AliasTokenSpans`, on rounds: `none` when they run out before the loop ends.
unfoldable pub spans_from : ℕ → Text → ℕ → Option (List (ℕ × ℕ))
spans_from zero text start = none
spans_from (suc rounds) text start =
    if not (ltb start (length text)) then some [] else elim (index_open (drop start text)) [
      | none ↦ some []
      | some offset ↦ elim (index_close (drop (start + offset) text)) [
        | none ↦ some []
        | some close ↦
            with_span (is_token text (start + offset) (start + offset + close + 1))
              (start + offset, start + offset + close + 1)
              (spans_from rounds text (start + offset + close + 1))
      ]
    ]

abbrev pub or_empty : Option (List (ℕ × ℕ)) → List (ℕ × ℕ)
or_empty none = []
or_empty (some spans) = spans

-- What the loop found on one round more than the text has bytes, which it never uses up.
unfoldable pub alias_token_spans : Text → List (ℕ × ℕ)
unfolding spans_from
alias_token_spans text = or_empty (spans_from (suc (length text)) text 0)
