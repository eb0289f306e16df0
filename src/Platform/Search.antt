-- ===== src/Platform/Search.antt =====
-- backend/internal/platform/pagination: search terms for `ILIKE '%' || $n || '%' ESCAPE '\'`. A
-- text is a list of character codes; strings.TrimSpace is a parameter.
mod Tests
use infraestructura_y_servic.Base.{
  ℕ, ◌≡◌, ◌≢◌, ◌⊎◌, inl, inr, refl, sym, subst, Bool, true, false, Option, none, some, List, [],
  ◌∷◌, ◌++◌, ◌==◌, arith, Bool-cases, if◌then◌else◌,
}
use infraestructura_y_servic.Platform.Pgconv.{Text}

-- `strings.ReplaceAll` for a text of one character.
unfoldable pub replace_all : ℕ → Text → Text → Text
replace_all old new [] = []
replace_all old new (c ∷ s) =
    let rest = replace_all old new s in if c == old then new ++ rest else c ∷ rest

-- 92 is `\`, 37 is `%`, 95 is `_`.
unfoldable pub escape_like_pattern : Text → Text
escape_like_pattern s =
    replace_all 95 (92 ∷ 95 ∷ []) (replace_all 37 (92 ∷ 37 ∷ []) (replace_all 92 (92 ∷ 92 ∷ []) s))

unfoldable pub optional_pattern : Text → Option Text
optional_pattern [] = none
optional_pattern (c ∷ s) = some (escape_like_pattern (c ∷ s))

unfoldable pub search_pattern : (Text → Text) → Text → Option Text
search_pattern trim query = optional_pattern (trim query)

-- What a LIKE pattern is made of, with `\` as the escape character.
pub data Token : Type 0 where
  any_text any_character : Token
  literal : ℕ → Token

-- A wildcard, or a character that stands for itself.
abbrev plain : ℕ → Token
plain c = if c == 37 then any_text else if c == 95 then any_character else literal c

abbrev before : Token → Option (List Token) → Option (List Token)
before t none = none
before t (some ts) = some (t ∷ ts)

-- The tokens behind an escape character, which escapes the next one, or anywhere else. A pattern
-- that ends in an escape character is none.
unfoldable pub tokens_from : Bool → Text → Option (List Token)
tokens_from true [] = none
tokens_from false [] = some []
tokens_from true (c ∷ s) = before (literal c) (tokens_from false s)
tokens_from false (c ∷ s) =
    let inside = tokens_from true s in
    let outside = tokens_from false s in if c == 92 then inside else before (plain c) outside

abbrev pub literals : Text → List Token
literals [] = []
literals (c ∷ s) = literal c ∷ literals s

as_itself :
    (c d : ℕ) (s : Text)
    → c ≡ d
    → tokens_from false (escape_like_pattern (d ∷ s))
      ≡ before (literal d) (tokens_from false (escape_like_pattern s))
    → tokens_from false (escape_like_pattern (c ∷ s))
      ≡ before (literal c) (tokens_from false (escape_like_pattern s))
as_itself c d s q h =
    subst
      (λ x.
        tokens_from false (escape_like_pattern (x ∷ s))
        ≡ before (literal x) (tokens_from false (escape_like_pattern s)))
      (sym q) h

-- An escaped character is read as itself, wherever it stands.
escape-literal :
    (c : ℕ) (s : Text)
    → tokens_from false (escape_like_pattern (c ∷ s))
      ≡ before (literal c) (tokens_from false (escape_like_pattern s))
unfolding escape_like_pattern replace_all tokens_from
escape-literal c s = elim (Bool-cases (c == 92)) [
  | inl e ↦ as_itself c 92 s (ground arith) refl
  | inr n ↦ elim (Bool-cases (c == 37)) [
    | inl e ↦ as_itself c 37 s (ground arith) refl
    | inr n' ↦ elim (Bool-cases (c == 95)) [
      | inl e ↦ as_itself c 95 s (ground arith) refl
      | inr n'' ↦ ground arith
    ]
  ]
]

escape_like_pattern-literals :
    (s : Text) → tokens_from false (escape_like_pattern s) ≡ some (literals s)
unfolding escape_like_pattern replace_all tokens_from
escape_like_pattern-literals [] = refl
escape_like_pattern-literals (c ∷ s) =
    ground (arith, escape-literal c s, escape_like_pattern-literals s)

-- A search term that is blank when trimmed is no filter, and any other is matched as it is written:
-- the pattern's tokens are the characters of the trimmed term, whatever wildcards and escape
-- characters it has, for every function that trims.
pub search_pattern-literals :
    (trim : Text → Text) (query : Text)
    → ((trim query ≡ []) × (search_pattern trim query ≡ none))
      ⊎ ((trim query ≢ [])
          × (p : Text) × (search_pattern trim query ≡ some p)
          × (tokens_from false p ≡ some (literals (trim query))))
unfolding search_pattern optional_pattern
search_pattern-literals trim query = by_text (trim query)
  where
    by_text :
        (t : Text)
        → ((t ≡ []) × (optional_pattern t ≡ none))
          ⊎ ((t ≢ [])
              × (p : Text) × (optional_pattern t ≡ some p)
              × (tokens_from false p ≡ some (literals t)))
    by_text [] = inl (refl, refl)
    by_text (c ∷ s) = inr (
      λ q. absurd (ground (arith, q)),
      escape_like_pattern (c ∷ s),
      refl,
      escape_like_pattern-literals (c ∷ s),
    )
