-- ===== src/Collector/Labels.antt =====
-- internal/collector/collector.go: `splitLabels`.
pub mod Quoted
use netdata_postgres_mcp.Base.{
  ℕ, Bool, true, false, not, ◌&&◌, List, [], ◌∷◌, ◌++◌, ◌==◌, if◌then◌else◌,
}
use netdata_postgres_mcp.Base.Text.{Bytes}
use netdata_postgres_mcp.Collector.Runes.{rune_text}

-- if current.Len() > 0 { result = append(result, current.String()) }
abbrev pub flush : Bytes → List Bytes → List Bytes
flush [] result = result
flush (c ∷ current) result = result ++ ((c ∷ current) ∷ [])

-- The loop over the bytes of the runes: the bytes of a rune that is not ASCII are copied as the rune is,
-- and an escape holds for the first of them, as none is looked at. `result`, `current`, `inQuote` and `escaped`, and the text that is left.
unfoldable pub split_loop : Bytes → List Bytes → Bytes → Bool → Bool → List Bytes
split_loop [] result current in_quote escaped = flush current result
split_loop (ch ∷ s) result current in_quote escaped =
    let plain = split_loop s result (current ++ (ch ∷ [])) in_quote false in
    let starts_escape = split_loop s result (current ++ (ch ∷ [])) in_quote true in
    let toggles = split_loop s result (current ++ (ch ∷ [])) (not in_quote) false in
    let separates = split_loop s (flush current result) [] in_quote false in
    if escaped
    then plain
    else if ch == b'\\'
    then starts_escape
    else if ch == b'"'
    then toggles
    else if (ch == b',') && not in_quote
    then separates
    else plain

unfoldable pub split_labels : Bytes → List Bytes
unfolding split_loop rune_text
split_labels s = split_loop (rune_text 0 s) [] [] false false
