-- ===== src/Platform/Search/Tests.antt =====
-- Search terms with wildcards.
use infraestructura_y_servic.Base.{◌≡◌, ◌≢◌, ◌⊎◌, refl, false, none, some, [], ◌∷◌}
use infraestructura_y_servic.Platform.Pgconv.{Text}
use infraestructura_y_servic.Platform.Search.{
  replace_all, escape_like_pattern, search_pattern, optional_pattern, tokens_from, literals,
  search_pattern-literals,
}

-- `5%_` and a backslash.
abbrev term : Text
term = 53 ∷ 37 ∷ 95 ∷ 92 ∷ []

escapes : search_pattern (λ s. s) term ≡ some (53 ∷ 92 ∷ 37 ∷ 92 ∷ 95 ∷ 92 ∷ 92 ∷ [])
unfolding search_pattern optional_pattern escape_like_pattern replace_all
escapes = refl

search_pattern-literals_example :
    ((term ≡ []) × (search_pattern (λ s. s) term ≡ none))
    ⊎ ((term ≢ [])
        × (p : Text) × (search_pattern (λ s. s) term ≡ some p)
        × (tokens_from false p ≡ some (literals term)))
search_pattern-literals_example = search_pattern-literals (λ s. s) term
