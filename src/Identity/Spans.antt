-- ===== src/Identity/Spans.antt =====
-- internal/identity/alias.go: the references that `AliasTokenSpans` finds in a text.
use mathlib.Core.Option.{some-injective}
use message_sync.Base.{
  Option, none, ◌∙◌, ℕ, zero, suc, ◌+◌, ◌-◌, ◌≤◌, ◌<◌, true, false, some, List, [], ◌∷◌, ltb, ◌==◌,
  eq_nat, length, Bool-cases, Option-cases, inl, inr, arith, ◌≡◌, refl, ap,
}
use message_sync.Texts.{Text}
use message_sync.Identity.{
  or_empty, with_span, drop, index_open, index_close, is_token, spans_from, alias_token_spans,
}

drop-length : (n : ℕ) (text : Text) → length (drop n text) ≡ length text - n
drop-length zero text = omega arith
drop-length (suc n) [] = omega arith
drop-length (suc n) (c ∷ cs) = omega (arith, drop-length n cs)

index_close-length : (text : Text) (n : ℕ) → index_close text ≡ some n → n < length text
unfolding index_close
index_close-length [] n is = absurd (ground (arith, is))
index_close-length (c ∷ cs) n is = elim (Bool-cases (c == b'}')) [
  | inl here ↦ omega (arith, some-injective 0 n (simp (here, index_close) at is))
  | inr there ↦ elim (Option-cases (index_close cs)) [
    | inl nowhere ↦ absurd (ground (arith, simp (there, nowhere, index_close) at is))
    | inr (k, found) ↦ omega (
      arith,
      index_close-length cs k found,
      some-injective (suc k) n (simp (there, found, index_close) at is),
    )
  ]
]

-- In order and apart, from a position on, up to a length; each a reference that is not escaped.
abbrev pub AreSpans : Text → ℕ → List (ℕ × ℕ) → Type 0
AreSpans text start [] = Unit {0}
AreSpans text start ((begin, end) ∷ rest) =
    (start ≤ begin)
    × (begin < end)
    × (end ≤ length text)
    × (is_token text begin end ≡ true)
    × AreSpans text end rest

AreSpans-mono :
    (text : Text) (m n : ℕ) (spans : List (ℕ × ℕ))
    → m ≤ n
    → AreSpans text n spans
    → AreSpans text m spans
AreSpans-mono text m n [] less spans = tt
AreSpans-mono text m n ((begin, end) ∷ rest) less spans =
    (omega (arith, less, spans.0), spans.1, spans.2, spans.3, spans.4)

-- What one round does: it ends the loop, or goes on behind a closing brace, with or without a span.
round_cases {ℓ} :
    (P : Option (List (ℕ × ℕ)) → Type ℓ) (rounds : ℕ) (text : Text) (start : ℕ)
    → P (some [])
    → ((begin end : ℕ)
        → start ≤ begin
        → begin < end
        → end ≤ length text
        → P (with_span (is_token text begin end) (begin, end) (spans_from rounds text end)))
    → P (spans_from (suc rounds) text start)
unfolding spans_from
round_cases P rounds text start ends goes_on = elim (Bool-cases (ltb start (length text))) [
  | inr over ↦ simp (over, spans_from) ends
  | inl inside ↦ elim (Option-cases (index_open (drop start text))) [
    | inl nowhere ↦ simp (inside, nowhere, spans_from) ends
    | inr (offset, opens) ↦ elim (Option-cases (index_close (drop (start + offset) text))) [
      | inl nowhere ↦ simp (inside, opens, nowhere, spans_from) ends
      | inr (close, closes) ↦
          simp (inside, opens, closes, spans_from)
            (goes_on (start + offset) (start + offset + close + 1) (omega arith) (omega arith) (
              omega (
                arith,
                drop-length (start + offset) text,
                index_close-length (drop (start + offset) text) close closes,
              )))
    ]
  ]
]

-- The loop ended, with spans from a position on.
abbrev Found : Text → ℕ → Option (List (ℕ × ℕ)) → Type 0
Found text start none = (true ≡ false)
Found text start (some spans) = AreSpans text start spans

with_span-Found :
    (text : Text) (start begin end : ℕ) (later : Option (List (ℕ × ℕ)))
    → start ≤ begin
    → begin < end
    → end ≤ length text
    → Found text end later
    → Found text start (with_span (is_token text begin end) (begin, end) later)
with_span-Found text start begin end none low grows high found = found
with_span-Found text start begin end (some spans) low grows high found =
    elim (Bool-cases (is_token text begin end)) [
      | inl token ↦ rw token (low, grows, high, token, found)
      | inr other ↦ rw other (AreSpans-mono text start end spans (omega (arith, low, grows)) found)
    ]

-- A round moves on in the text, so the loop ends within as many rounds as there are bytes left, and one.
spans_from-Found :
    (rounds : ℕ) (text : Text) (start : ℕ)
    → length text < start + rounds
    → start ≤ length text
    → Found text start (spans_from rounds text start)
unfolding spans_from
spans_from-Found zero text start enough within = absurd (omega (arith, enough, within))
spans_from-Found (suc rounds) text start enough within =
    round_cases (Found text start) rounds text start tt (λ begin end low grows high.
      with_span-Found text start begin end (spans_from rounds text end) low grows high
        (spans_from-Found rounds text end (omega (arith, enough, low, grows)) high))

Found-or_empty :
    (text : Text) (start : ℕ) (spans : Option (List (ℕ × ℕ)))
    → Found text start spans
    → (spans ≡ some (or_empty spans)) × AreSpans text start (or_empty spans)
Found-or_empty text start none found = absurd (ground (arith, found))
Found-or_empty text start (some spans) found = (refl, found)

loop-Found : (text : Text) → Found text 0 (spans_from (suc (length text)) text 0)
loop-Found text = spans_from-Found (suc (length text)) text 0 (omega arith) (omega arith)

-- The spans of a text lie within it, in order and apart from each other, and each is a whole reference
-- that an even number of backslashes stands before.
pub alias_token_spans-AreSpans : (text : Text) → AreSpans text 0 (alias_token_spans text)
unfolding alias_token_spans
alias_token_spans-AreSpans text =
    (Found-or_empty text 0 (spans_from (suc (length text)) text 0) (loop-Found text)).1

pub spans_from-rounds :
    (m n : ℕ) (text : Text) (start : ℕ)
    → length text < start + m
    → length text < start + n
    → start ≤ length text
    → spans_from m text start ≡ spans_from n text start
unfolding spans_from
spans_from-rounds zero n text start enough also within = absurd (omega (arith, enough, within))
spans_from-rounds (suc m) zero text start enough also within = absurd (omega (arith, also, within))
spans_from-rounds (suc m) (suc n) text start enough also within =
    elim (Bool-cases (ltb start (length text))) [
      | inr over ↦ simp (over, spans_from) refl
      | inl inside ↦ elim (Option-cases (index_open (drop start text))) [
        | inl nowhere ↦ simp (inside, nowhere, spans_from) refl
        | inr (offset, opens) ↦ elim (Option-cases (index_close (drop (start + offset) text))) [
          | inl nowhere ↦ simp (inside, opens, nowhere, spans_from) refl
          | inr (close, closes) ↦
              simp (inside, opens, closes, spans_from)
                (ap
                  (with_span (is_token text (start + offset) (start + offset + close + 1))
                    (start + offset, start + offset + close + 1))
                  (spans_from-rounds m n text (start + offset + close + 1) (omega (arith, enough))
                    (omega (arith, also))
                    (omega (
                      arith,
                      drop-length (start + offset) text,
                      index_close-length (drop (start + offset) text) close closes,
                    ))))
        ]
      ]
    ]

-- The loop ends for every text: one round more than the text has bytes is enough, and more rounds find
-- the same spans.
pub alias_token_spans-rounds :
    (rounds : ℕ) (text : Text)
    → length text < rounds
    → spans_from rounds text 0 ≡ some (alias_token_spans text)
unfolding alias_token_spans
alias_token_spans-rounds rounds text enough =
    spans_from-rounds rounds (suc (length text)) text 0 (omega (arith, enough)) (omega arith)
      (omega arith)
    ∙ (Found-or_empty text 0 (spans_from (suc (length text)) text 0) (loop-Found text)).0
