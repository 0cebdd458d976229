-- ===== src/Collector/Labels/Quoted.antt =====
-- What `splitLabels` of internal/collector/collector.go makes of a list of labels.
use mathlib.Core.List.{append_assoc, append-nil}
use netdata_postgres_mcp.Base.{
  ℕ, ◌≡◌, refl, ◌∙◌, ap, sym, Bool, true, false, ◌&&◌, List, [], ◌∷◌, ◌++◌, map, All, ◌==◌,
}
use netdata_postgres_mcp.Base.Text.{Bytes}
use netdata_postgres_mcp.Collector.Runes.{IsUtf8}
use netdata_postgres_mcp.Collector.Labels.{flush, split_loop, split_labels}

-- A byte that may stand between quotes: not a quote and not a backslash.
abbrev pub IsInner : ℕ → Type 0
IsInner c = ((c == b'\\') ≡ false) × ((c == b'"') ≡ false)

-- And one outside of them: not a comma either.
abbrev pub IsBare : ℕ → Type 0
IsBare c = IsInner c × ((c == b',') ≡ false)

-- key="value"
abbrev pub label_text : Bytes × Bytes → Bytes
label_text (key, val) = key ++ (b'=' ∷ b'"' ∷ (val ++ (b'"' ∷ [])))

abbrev pub IsLabel : Bytes × Bytes → Type 0
IsLabel (key, val) = All IsBare key × All IsInner val

-- The labels with commas between them.
abbrev pub label_list : List (Bytes × Bytes) → Bytes
label_list [] = []
label_list (l ∷ []) = label_text l
label_list (l ∷ m ∷ ls) = label_text l ++ (b',' ∷ label_list (m ∷ ls))

and_false : (b : Bool) → (b && false) ≡ false
and_false true = refl
and_false false = refl

split_bare :
    (s rest : Bytes) (result : List Bytes) (current : Bytes)
    → All IsBare s
    → split_loop (s ++ rest) result current false false
      ≡ split_loop rest result (current ++ s) false false
unfolding split_loop
split_bare [] rest result current h = rw (append-nil current)
split_bare (c ∷ s) rest result current h =
    rw (h.0.0.0, h.0.0.1, h.0.1)
      (split_bare s rest result (current ++ (c ∷ [])) h.1 ∙ rw (append_assoc current (c ∷ []) s))

split_inner :
    (s rest : Bytes) (result : List Bytes) (current : Bytes)
    → All IsInner s
    → split_loop (s ++ rest) result current true false
      ≡ split_loop rest result (current ++ s) true false
unfolding split_loop
split_inner [] rest result current h = rw (append-nil current)
split_inner (c ∷ s) rest result current h =
    rw (h.0.0, h.0.1, and_false (c == b','))
      (split_inner s rest result (current ++ (c ∷ [])) h.1 ∙ rw (append_assoc current (c ∷ []) s))

split_label :
    (l : Bytes × Bytes) (rest : Bytes) (result : List Bytes)
    → IsLabel l
    → split_loop (label_text l ++ rest) result [] false false
      ≡ split_loop rest result (label_text l) false false
unfolding split_loop
split_label (key, val) rest result h =
    ap (λ (t : Bytes). split_loop t result [] false false) before
    ∙ split_bare key (b'=' ∷ b'"' ∷ (val ++ (b'"' ∷ rest))) result [] h.0
    ∙ split_inner val (b'"' ∷ rest) result ((key ++ (b'=' ∷ [])) ++ (b'"' ∷ [])) h.1
    ∙ ap (λ (c : Bytes). split_loop rest result c false false) after
  where
    before : label_text (key, val) ++ rest ≡ key ++ (b'=' ∷ b'"' ∷ (val ++ (b'"' ∷ rest)))
    before = rw (
      append_assoc key (b'=' ∷ b'"' ∷ (val ++ (b'"' ∷ []))) rest,
      append_assoc val (b'"' ∷ []) rest,
    )

    after : (((key ++ (b'=' ∷ [])) ++ (b'"' ∷ [])) ++ val) ++ (b'"' ∷ []) ≡ label_text (key, val)
    after = simp append_assoc

flush_label :
    (l : Bytes × Bytes) (result : List Bytes)
    → flush (label_text l) result ≡ result ++ (label_text l ∷ [])
flush_label ([], val) result = refl
flush_label (c ∷ key, val) result = refl

split_list :
    (ls : List (Bytes × Bytes)) (result : List Bytes)
    → All IsLabel ls
    → split_loop (label_list ls) result [] false false ≡ result ++ map label_text ls
unfolding split_loop
split_list [] result h = rw (append-nil result)
split_list (l ∷ []) result h =
    ap (λ (t : Bytes). split_loop t result [] false false) (sym (append-nil (label_text l)))
    ∙ split_label l [] result h.0
    ∙ flush_label l result
split_list (l ∷ m ∷ ls) result h =
    split_label l (b',' ∷ label_list (m ∷ ls)) result h.0
    ∙ ap (λ (r : List Bytes). split_loop (label_list (m ∷ ls)) r [] false false)
        (flush_label l result)
    ∙ split_list (m ∷ ls) (result ++ (label_text l ∷ [])) h.1
    ∙ append_assoc result (label_text l ∷ []) (map label_text (m ∷ ls))

-- A list of labels `key="value"`, whose keys have no quotes, backslashes or commas and whose values no
-- quotes or backslashes, in valid UTF-8, is split at the commas between the labels, and not at those
-- in values.
pub split_labels-label_list :
    (ls : List (Bytes × Bytes))
    → IsUtf8 (label_list ls)
    → All IsLabel ls
    → split_labels (label_list ls) ≡ map label_text ls
unfolding split_labels
split_labels-label_list ls u h = rw u (split_list ls [] h)
