-- ===== src/Input/Keyboard/Lookup.antt =====
-- The searches that `keyEvent` makes in the tables, as loops with an early exit.
use packages_services_vnc_fl.Prelude.{
  ℕ, Bool, Option, none, some, List, [], ◌∷◌, if◌then◌else◌, ◌==◌,
}

-- The first row of a keysym.
unfoldable pub lookup_key : ℕ → List (ℕ × ℕ) → Option ℕ
lookup_key keysym [] = none
lookup_key keysym ((key, v) ∷ rows) = if key == keysym then some v else lookup_key keysym rows

unfoldable pub lookup_symbol : ℕ → List (ℕ × ℕ × Bool × Bool) → Option (ℕ × Bool × Bool)
lookup_symbol keysym [] = none
lookup_symbol keysym ((key, direct_key, shift, alt) ∷ rows) =
    if key == keysym then some (direct_key, shift, alt) else lookup_symbol keysym rows

-- The two nested loops: a Latin-1 row whose dead character has no Alt key does not end the search.
unfoldable pub lookup_latin1 : ℕ → List (ℕ × ℕ × ℕ) → List (ℕ × ℕ) → Option (ℕ × ℕ)
unfolding lookup_key
lookup_latin1 keysym [] alts = none
lookup_latin1 keysym ((latin1_char, dead_char, base_char) ∷ rows) alts =
    let rest = lookup_latin1 keysym rows alts in
    if latin1_char == keysym
    then elim (lookup_key dead_char alts) [
      | some alt_char ↦ some (alt_char, base_char)
      | none ↦ rest
    ]
    else rest
