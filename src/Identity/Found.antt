-- ===== src/Identity/Found.antt =====
-- internal/identity/alias.go: a text that is one reference.
use mathlib.Core.Option.{some-injective}
use message_sync.Base.{
  sym, ◌≤◌, false, subst, ◌<◌, ℕ, zero, suc, ◌+◌, ◌-◌, Bool, true, false, not, ◌&&◌, ◌||◌, some,
  List, [], ◌∷◌, ◌++◌, ltb, ◌==◌, eq_nat, length, arith, ◌≡◌, refl, ap, ◌∙◌, any,
}
use message_sync.Texts.{Text}
use message_sync.Identity.Spans.{alias_token_spans-rounds}
use message_sync.Identity.{
  drop, take, is_some, index_open, index_close, is_token, spans_from, alias_token_spans,
  valid_alias, parse_alias_token, count_backslashes,
}

abbrev pub reference : Text → Text
reference alias = b'@' ∷ b'{' ∷ alias ++ b'}' ∷ []

abbrev no_braces : Text → Bool
no_braces alias = not (any (λ c. c == b'{' || c == b'}') alias)

index_close-closed :
    (alias : Text) → no_braces alias ≡ true → index_close (alias ++ b'}' ∷ []) ≡ some (length alias)
unfolding index_close
index_close-closed [] clean = refl
index_close-closed (c ∷ cs) clean =
    let other : (c == b'}') ≡ false = ground (arith, clean) in
    let later : no_braces cs ≡ true = ground (arith, clean) in
    simp (other, index_close-closed cs later) refl

length-closed : (alias : Text) → length (alias ++ b'}' ∷ []) ≡ suc (length alias)
length-closed [] = refl
length-closed (c ∷ cs) = ap suc (length-closed cs)

take-whole : (n : ℕ) (text : Text) → n ≡ length text → take n text ≡ text
take-whole zero [] is = refl
take-whole zero (c ∷ cs) is = absurd (omega (arith, is))
take-whole (suc n) [] is = refl
take-whole (suc n) (c ∷ cs) is = ap (λ rest. c ∷ rest) (take-whole n cs (omega (arith, is)))

index_close-reference :
    (alias : Text)
    → no_braces alias ≡ true
    → index_close (reference alias) ≡ some (suc (suc (length alias)))
unfolding index_close
index_close-reference alias clean = simp (index_close-closed alias clean) refl

length-reference : (alias : Text) → length (reference alias) ≡ suc (suc (suc (length alias)))
length-reference alias = ap (λ n. suc (suc n)) (length-closed alias)

is_token-reference :
    (alias : Text)
    → valid_alias alias ≡ true
    → is_token (reference alias) 0 (suc (suc (suc (length alias)))) ≡ true
unfolding valid_alias count_backslashes
is_token-reference alias valid =
    let end : ℕ = suc (suc (suc (length alias))) in
    let parsed : is_some (parse_alias_token (reference alias)) ≡ true = ground (arith, valid) in
    ap {B = Bool} (λ t. is_some (parse_alias_token t) && true)
      (take-whole (end - 0) (reference alias) (omega (arith, length-reference alias)))
    ∙ ground (arith, parsed)

-- A round that finds both ends of a token.
round_found :
    (rounds : ℕ) (text : Text) (start offset close begin end : ℕ) (later : List (ℕ × ℕ))
    → start < length text
    → begin ≡ start + offset
    → end ≡ start + offset + close + 1
    → index_open (drop start text) ≡ some offset
    → index_close (drop begin text) ≡ some close
    → is_token text begin end ≡ true
    → spans_from rounds text end ≡ some later
    → spans_from (suc rounds) text start ≡ some ((begin, end) ∷ later)
unfolding spans_from
round_found rounds text start offset close begin end later inside begins ends opens closes token
      goes_on =
    let closed : index_close (drop (start + offset) text) ≡ some close =
      subst (λ b. index_close (drop b text) ≡ some close) begins closes in
    let whole : is_token text (start + offset) (start + offset + close + 1) ≡ true =
      subst (λ e. is_token text (start + offset) e ≡ true) ends
        (subst (λ b. is_token text b end ≡ true) begins token) in
    let rest : spans_from rounds text (start + offset + close + 1) ≡ some later =
      subst (λ e. spans_from rounds text e ≡ some later) ends goes_on in
    let low : ltb start (length text) ≡ true = ground (arith, inside) in
    simp (low, opens, closed, whole, rest, begins, ends) refl

-- At the end of the text the loop ends.
spans_from_end :
    (rounds : ℕ) (text : Text) (start : ℕ)
    → length text ≤ start
    → spans_from (suc rounds) text start ≡ some []
unfolding spans_from
spans_from_end rounds text start over =
    let ends : ltb start (length text) ≡ false = ground (arith, over) in simp ends refl

-- A valid alias between `@{` and `}` is found in this text, as its one reference.
pub alias_token_spans-reference :
    (alias : Text)
    → valid_alias alias ≡ true
    → alias_token_spans (reference alias) ≡ (0, suc (suc (suc (length alias)))) ∷ []
unfolding valid_alias index_open
alias_token_spans-reference alias valid =
    let end : ℕ = suc (suc (suc (length alias))) in
    let clean : no_braces alias ≡ true = ground (arith, valid) in
    let text : Text = reference alias in
    some-injective (alias_token_spans text) ((0, end) ∷ []) (
      sym (alias_token_spans-rounds (suc (suc (length text))) text (omega arith))
      ∙ round_found (suc (length text)) text 0 0 (suc (suc (length alias))) 0 end [] (omega arith)
          (omega arith) (omega arith) refl (index_close-reference alias clean)
          (is_token-reference alias valid)
          (spans_from_end (length text) text end (omega (arith, length-reference alias))))
