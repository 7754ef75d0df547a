-- ===== src/Tests/Identity.antt =====
-- Properties of references at a concrete text.
use message_sync.Base.{ℕ, codes, some, List, [], ◌∷◌, ◌≡◌, refl, arith}
use message_sync.Identity.Found.{reference, alias_token_spans-reference}
use message_sync.Identity.{
  valid_alias, split_spaces, parse_alias_token, index_open, index_close, count_backslashes,
  spans_from, alias_token_spans,
}
use message_sync.Identity.Spans.{AreSpans, alias_token_spans-AreSpans, alias_token_spans-rounds}

abbrev text : List ℕ
text = codes "to @{red fox} and \\@{old owl}"

-- The escaped reference is no span.
one_span : alias_token_spans text ≡ (3, 13) ∷ []
unfolding alias_token_spans spans_from parse_alias_token split_spaces index_open index_close
    count_backslashes
one_span = refl

alias_token_spans-AreSpans_example : AreSpans text 0 (alias_token_spans text)
alias_token_spans-AreSpans_example = alias_token_spans-AreSpans text

alias_token_spans-rounds_example : spans_from 50 text 0 ≡ some (alias_token_spans text)
alias_token_spans-rounds_example = alias_token_spans-rounds 50 text (omega arith)

alias_token_spans-reference_example :
    alias_token_spans (reference (codes "red fox 2")) ≡ (0, 12) ∷ []
unfolding valid_alias parse_alias_token split_spaces
alias_token_spans-reference_example = alias_token_spans-reference (codes "red fox 2") refl
