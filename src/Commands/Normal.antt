-- ===== src/Commands/Normal.antt =====
-- internal/commands/commands.go: commands do not depend on how the settings are spaced.
use message_sync.Base.{
  ℕ, Bool, true, false, ◌||◌, ◌&&◌, List, [], ◌∷◌, ◌++◌, if◌then◌else◌, ◌==◌, any, all, All, codes,
  Bool-cases, inl, inr, arith, ◌≡◌, refl, sym, ap, ◌∙◌,
}
use mathlib.Core.List.{append-nil}
use message_sync.Store.Ledger.{is_space}
use message_sync.Router.Registry.{trim_end}
use message_sync.Texts.{
  trim_space, Text, eq_text, has_prefix, starts_space, add_first, fields, join, join_fields,
}
use message_sync.Config.{Config, apply_defaults}
use message_sync.Commands.{is_first, match_local, default_trigger, match_summary}

-- A text without spaces.
abbrev IsWord : Text → Type 0
IsWord [] = (true ≡ false)
IsWord (c ∷ cs) = any is_space (c ∷ cs) ≡ false

fields-words : (s : Text) → All IsWord (fields s)
unfolding fields
fields-words [] = tt
fields-words (c ∷ cs) = elim (Bool-cases (is_space c)) [
  | inl space ↦ simp (space, fields) (fields-words cs)
  | inr letter ↦ elim (Bool-cases (starts_space cs)) [
    | inl ends ↦ simp (letter, ends, fields) (ground (arith, letter), fields-words cs)
    | inr goes_on ↦ simp (letter, goes_on, fields) (first_word (fields cs) letter (fields-words cs))
  ]
]
  where
    first_word : (ws : List Text) → is_space c ≡ false → All IsWord ws → All IsWord (add_first c ws)
    first_word [] letter words = (ground (arith, letter), tt)
    first_word ([] ∷ ws) letter words = absurd (ground (arith, words.0))
    first_word ((d ∷ w) ∷ ws) letter words = (ground (arith, letter, words.0), words.1)

fields_letter :
    (c : ℕ) (cs : Text)
    → is_space c ≡ false
    → starts_space cs ≡ false
    → fields (c ∷ cs) ≡ add_first c (fields cs)
unfolding fields
fields_letter c cs letter goes_on = simp (letter, goes_on) refl

fields-append :
    (w rest : Text) → IsWord w → starts_space rest ≡ true → fields (w ++ rest) ≡ w ∷ fields rest
unfolding fields
fields-append [] rest word ends = absurd (ground (arith, word))
fields-append (c ∷ []) rest word ends =
    let letter : is_space c ≡ false = ground (arith, word) in simp (letter, ends, fields) refl
fields-append (c ∷ d ∷ w) rest word ends =
    let letter : is_space c ≡ false = ground (arith, word) in
    let next : is_space d ≡ false = ground (arith, word) in
    let word_rest : any is_space (d ∷ w) ≡ false = ground (arith, word) in
    let starts : starts_space (d ∷ w ++ rest) ≡ false = next in
    let later : fields (d ∷ w ++ rest) ≡ (d ∷ w) ∷ fields rest =
      fields-append (d ∷ w) rest word_rest ends in
    fields_letter c (d ∷ w ++ rest) letter starts ∙ ap (add_first c) later

fields-join : (ws : List Text) → All IsWord ws → fields (join ws) ≡ ws
unfolding join fields is_space
fields-join [] words = refl
fields-join (w ∷ []) words = ap fields (sym (append-nil w)) ∙ fields-append w [] words.0 refl
fields-join (w ∷ v ∷ ws) words =
    fields-append w (32 ∷ join (v ∷ ws)) words.0 refl
    ∙ ap (λ rest. w ∷ rest) (fields-join (v ∷ ws) words.1)

abbrev no_words : List Text → Bool
no_words [] = true
no_words (w ∷ ws) = false

trim_end_blank : (s : Text) → (trim_end s == []) ≡ all is_space s
trim_end_blank [] = refl
trim_end_blank (c ∷ cs) = last (trim_end cs) (trim_end_blank cs)
  where
    last :
        (rest : Text)
        → (rest == []) ≡ all is_space cs
        → (elim rest [ [] ↦ if is_space c then [] else c ∷ [] | d ∷ ds ↦ c ∷ d ∷ ds ] == [])
          ≡ (is_space c && all is_space cs)
    last [] same = ground (arith, same)
    last (d ∷ ds) same = ground (arith, same)

trim_space_blank : (s : Text) → (trim_space s == []) ≡ all is_space s
trim_space_blank [] = refl
trim_space_blank (c ∷ cs) = elim (Bool-cases (is_space c)) [
  | inl space ↦ simp space (trim_space_blank cs)
  | inr letter ↦ simp letter (trim_end_blank (c ∷ cs) ∙ simp letter refl)
]

fields_blank : (s : Text) → no_words (fields s) ≡ all is_space s
unfolding fields
fields_blank [] = refl
fields_blank (c ∷ cs) = elim (Bool-cases (is_space c)) [
  | inl space ↦ simp space (fields_blank cs)
  | inr letter ↦ elim (Bool-cases (starts_space cs)) [
    | inl ends ↦ simp (letter, ends) refl
    | inr goes_on ↦ simp (letter, goes_on) (first_word (fields cs))
  ]
]
  where
    first_word : (ws : List Text) → no_words (add_first c ws) ≡ false
    first_word [] = refl
    first_word (w ∷ ws) = refl

join_blank : (ws : List Text) → All IsWord ws → (join ws == []) ≡ no_words ws
unfolding join
join_blank [] words = refl
join_blank ([] ∷ ws) words = absurd (ground (arith, words.0))
join_blank ((c ∷ w) ∷ []) words = refl
join_blank ((c ∷ w) ∷ v ∷ ws) words = refl

fields-join_fields : (s : Text) → fields (join_fields s) ≡ fields s
fields-join_fields s = fields-join (fields s) (fields-words s)

join_fields_blank : (s : Text) → (join_fields s == []) ≡ all is_space s
join_fields_blank s = join_blank (fields s) (fields-words s) ∙ fields_blank s

-- The triggers of a setting.
abbrev triggers : Text → List Text
triggers configured = fields (if trim_space configured == [] then default_trigger else configured)

triggers_blank : (s : Text) → all is_space s ≡ true → triggers s ≡ fields default_trigger
triggers_blank s blank = rw (trim_space_blank s ∙ blank) refl

triggers_words : (s : Text) → all is_space s ≡ false → triggers s ≡ fields s
triggers_words s words = rw (trim_space_blank s ∙ words) refl

default_words : all is_space default_trigger ≡ false
unfolding is_space
default_words = refl

abbrev normal_trigger : Text → Text
normal_trigger s = if join_fields s == [] then default_trigger else join_fields s

triggers-normal_trigger : (s : Text) → triggers (normal_trigger s) ≡ triggers s
triggers-normal_trigger s = elim (Bool-cases (all is_space s)) [
  | inl blank ↦
      ap (λ b. triggers (if b then default_trigger else join_fields s))
        (join_fields_blank s ∙ blank)
      ∙ triggers_words default_trigger default_words
      ∙ sym (triggers_blank s blank)
  | inr words ↦
      ap (λ b. triggers (if b then default_trigger else join_fields s))
        (join_fields_blank s ∙ words)
      ∙ triggers_words (join_fields s) (
          sym (fields_blank (join_fields s))
          ∙ ap no_words (fields-join_fields s)
          ∙ fields_blank s
          ∙ words)
      ∙ fields-join_fields s
      ∙ sym (triggers_words s words)
]

-- The defaults of the configuration rewrite the prefixes and triggers, and the same messages are local
-- and the same messages ask for a summary before and after.
pub apply_defaults-commands :
    (c : Config) (text : Text)
    → (match_local text (apply_defaults c).local_prefix ≡ match_local text c.local_prefix)
      × (match_summary text (apply_defaults c).aggregation_trigger
          ≡ match_summary text c.aggregation_trigger)
unfolding apply_defaults match_local match_summary
apply_defaults-commands c text = (
  ap (λ words. is_first (codes "/local") (fields text) || any (λ p. has_prefix text p) words)
      (fields-join_fields c.local_prefix),
  ap
      (λ words.
        trim_space text == codes "/summary" || any (λ trigger. trim_space text == trigger) words)
      (triggers-normal_trigger c.aggregation_trigger),
)
