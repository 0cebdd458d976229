-- ===== src/Collector/Runes.antt =====
-- The loop of Go over the runes of a string, as `splitLabels` of internal/collector/collector.go makes
-- it: a byte that is not part of valid UTF-8 is the rune U+FFFD by itself, as the language's
-- specification says. A rune is written back as its bytes, those of U+FFFD for an invalid byte.
use netdata_postgres_mcp.Base.{
  ℕ, zero, suc, ◌≡◌, Bool, true, false, ◌&&◌, List, [], ◌∷◌, Option, none, some, length, ltb, leb,
  ◌==◌, if◌then◌else◌,
}
use netdata_postgres_mcp.Base.Text.{Bytes}

-- The bounds of the bytes that follow a first byte in UTF-8 (RFC 3629), `none` if it cannot be first.
unfoldable pub followers : ℕ → Option (List (ℕ × ℕ))
followers c =
    let any : ℕ × ℕ = (128, 191) in
    if ltb c 128
    then some []
    else if ltb c 194
    then none
    else if ltb c 224
    then some (any ∷ [])
    else if c == 224
    then some ((160, 191) ∷ any ∷ [])
    else if c == 237
    then some ((128, 159) ∷ any ∷ [])
    else if ltb c 240
    then some (any ∷ any ∷ [])
    else if c == 240
    then some ((144, 191) ∷ any ∷ any ∷ [])
    else if ltb c 244
    then some (any ∷ any ∷ any ∷ [])
    else if c == 244
    then some ((128, 143) ∷ any ∷ any ∷ [])
    else none

-- The text starts with bytes within the bounds.
unfoldable pub starts_within : List (ℕ × ℕ) → Bytes → Bool
starts_within [] s = true
starts_within (r ∷ rs) [] = false
starts_within ((lo, hi) ∷ rs) (c ∷ s) = leb lo c && leb c hi && starts_within rs s

-- How many bytes of the text after its first one belong to the same rune, `none` if it is invalid.
unfoldable pub rune_rest : ℕ → Bytes → Option ℕ
unfolding followers starts_within
rune_rest c s = elim (followers c) [
  | none ↦ none
  | some rs ↦ if starts_within rs s then some (length rs) else none
]

-- The text of the runes, after so many bytes that belong to the rune before.
unfoldable pub rune_text : ℕ → Bytes → Bytes
unfolding rune_rest
rune_text n [] = []
rune_text (suc n) (c ∷ s) = c ∷ rune_text n s
rune_text zero (c ∷ s) = elim (rune_rest c s) [
  | none ↦ 239 ∷ 191 ∷ 189 ∷ rune_text zero s
  | some n ↦ c ∷ rune_text n s
]

abbrev pub IsUtf8 : Bytes → Type 0
IsUtf8 s = rune_text 0 s ≡ s
