-- ===== src/Prelude/Space.antt =====
-- strings.TrimSpace on bytes: the white space of Unicode in UTF-8, one, two or three bytes each.
use argvio.Prelude.{Str, ℕ, Bool, true, false, ◌&&◌, ◌||◌, [], ◌∷◌, leb, ◌==◌}

abbrev is_space : ℕ → Bool
is_space c = (leb 9 c && leb c 13) || (c == 32)

-- U+0085 and U+00A0
abbrev is_space_2 : ℕ → ℕ → Bool
is_space_2 c d = (c == 194) && ((d == 133) || (d == 160))

-- U+1680, U+2000 to U+200A, U+2028, U+2029, U+202F, U+205F and U+3000
abbrev is_space_3 : ℕ → ℕ → ℕ → Bool
is_space_3 c d e =
    ((c == 225) && (d == 154) && (e == 128))
    || ((c == 226)
        && (d == 128)
        && ((leb 128 e && leb e 138) || (e == 168) || (e == 169) || (e == 175)))
    || ((c == 226) && (d == 129) && (e == 159))
    || ((c == 227) && (d == 128) && (e == 128))

-- Without the spaces in front.
unfoldable pub trim_left : Str → Str
trim_left [] = []
trim_left (c ∷ []) = elim (is_space c) [ true ↦ [] | false ↦ c ∷ [] ]
trim_left (c ∷ d ∷ []) = elim (is_space c) [
  | true ↦ trim_left (d ∷ [])
  | false ↦ elim (is_space_2 c d) [ true ↦ [] | false ↦ c ∷ d ∷ [] ]
]
trim_left (c ∷ d ∷ e ∷ s) = elim (is_space c) [
  | true ↦ trim_left (d ∷ e ∷ s)
  | false ↦ elim (is_space_2 c d) [
    | true ↦ trim_left (e ∷ s)
    | false ↦ elim (is_space_3 c d e) [ true ↦ trim_left s | false ↦ c ∷ d ∷ e ∷ s ]
  ]
]

unfoldable pub backwards : Str → Str → Str
backwards done [] = done
backwards done (c ∷ s) = backwards (c ∷ done) s

-- Without the spaces behind, on the reversed bytes.
unfoldable pub trim_reversed : Str → Str
trim_reversed [] = []
trim_reversed (e ∷ []) = elim (is_space e) [ true ↦ [] | false ↦ e ∷ [] ]
trim_reversed (e ∷ d ∷ []) = elim (is_space e) [
  | true ↦ trim_reversed (d ∷ [])
  | false ↦ elim (is_space_2 d e) [ true ↦ [] | false ↦ e ∷ d ∷ [] ]
]
trim_reversed (e ∷ d ∷ c ∷ s) = elim (is_space e) [
  | true ↦ trim_reversed (d ∷ c ∷ s)
  | false ↦ elim (is_space_2 d e) [
    | true ↦ trim_reversed (c ∷ s)
    | false ↦ elim (is_space_3 c d e) [ true ↦ trim_reversed s | false ↦ e ∷ d ∷ c ∷ s ]
  ]
]

unfoldable pub trim_space : Str → Str
trim_space s = backwards [] (trim_reversed (backwards [] (trim_left s)))
