-- ===== src/Texts.antt =====
-- Texts as their bytes, for what the program does with ASCII text: `strings.TrimSpace`, `Fields`, `ToLower`,
-- `HasPrefix`, `HasSuffix`, `ContainsAny`; and the pattern of a user name of internal/api/auth.go.
use message_sync.Base.{
  ℕ, ◌+◌, Bool, true, false, any, ◌&&◌, ◌||◌, List, [], ◌∷◌, ◌++◌, leb, if◌then◌else◌, ◌==◌, eq_nat,
  all, length, HasEq, ◌↔◌, ◌≡◌, refl, arith,
}
use message_sync.Store.Ledger.{is_space}
use message_sync.Router.Registry.{trim_start, trim_end}

abbrev pub Text : Type 0
Text = List ℕ

abbrev text_equal : Text → Text → Bool
text_equal [] [] = true
text_equal [] (y ∷ ys) = false
text_equal (x ∷ xs) [] = false
text_equal (x ∷ xs) (y ∷ ys) = x == y && text_equal xs ys

pub text_equal_iff : (s t : Text) → (text_equal s t ≡ true) ↔ (s ≡ t)
text_equal_iff [] [] = (λ _. refl, λ _. refl)
text_equal_iff [] (y ∷ ys) = ground arith
text_equal_iff (x ∷ xs) [] = ground arith
text_equal_iff (x ∷ xs) (y ∷ ys) = ground (arith, text_equal_iff xs ys)

instance abbrev pub eq_text : HasEq Text
eq_text = record { equal = text_equal; equal_iff = text_equal_iff }

abbrev pub has_prefix : Text → Text → Bool
has_prefix s [] = true
has_prefix [] (p ∷ ps) = false
has_prefix (c ∷ cs) (p ∷ ps) = c == p && has_prefix cs ps

abbrev pub has_suffix : Text → Text → Bool
has_suffix [] suffix = suffix == []
has_suffix (c ∷ cs) suffix = (c ∷ cs) == suffix || has_suffix cs suffix

abbrev lower : ℕ → ℕ
lower c = if leb b'A' c && leb c b'Z' then c + 32 else c

abbrev pub to_lower : Text → Text
to_lower [] = []
to_lower (c ∷ cs) = lower c ∷ to_lower cs

abbrev pub trim_space : Text → Text
trim_space s = trim_end (trim_start s)

unfoldable pub normalize_username : Text → Text
normalize_username s = to_lower (trim_space s)

abbrev starts_username : ℕ → Bool
starts_username c = (leb b'a' c && leb c b'z') || (leb b'0' c && leb c b'9')

abbrev in_username : ℕ → Bool
in_username c = starts_username c || c == b'_' || c == b'.' || c == b'-'

-- `^[a-z0-9][a-z0-9_.-]{1,63}$`
unfoldable pub valid_username : Text → Bool
valid_username [] = false
valid_username (c ∷ cs) =
    starts_username c && leb 1 (length cs) && leb (length cs) 63 && all in_username cs

abbrev pub starts_space : Text → Bool
starts_space [] = true
starts_space (c ∷ cs) = is_space c

abbrev pub add_first : ℕ → List Text → List Text
add_first c [] = (c ∷ []) ∷ []
add_first c (w ∷ ws) = (c ∷ w) ∷ ws

-- `strings.Fields`: the words between the spaces.
unfoldable pub fields : Text → List Text
fields [] = []
fields (c ∷ cs) =
    let rest = fields cs in
    if is_space c then rest else (if starts_space cs then (c ∷ []) ∷ rest else add_first c rest)

-- `strings.Join(words, " ")`
unfoldable pub join : List Text → Text
join [] = []
join (w ∷ []) = w
join (w ∷ v ∷ ws) = w ++ 32 ∷ join (v ∷ ws)

abbrev pub join_fields : Text → Text
join_fields s = join (fields s)

-- `strings.ContainsAny(s, "\x00\r\n")`
abbrev pub has_control : Text → Bool
has_control s = any (λ c. c == 0 || c == 10 || c == 13) s
