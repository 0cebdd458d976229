-- ===== src/Base/Text.antt =====
-- Go strings as byte lists, and the functions of Go's `strings` package that the program calls.
use Prim.Native.Char.{code}
use Prim.Native.String.{String}
use Prim.Native.Nat.{ℕ, zero, suc, ◌+◌, ◌-◌}
use mathlib.Core.Path.{◌≡◌, refl}
use mathlib.Core.Bool.{Bool, true, false, ◌&&◌, ◌||◌}
use mathlib.Core.Logic.{◌↔◌}
use mathlib.Core.List.{List, [], ◌∷◌, ◌++◌, map, reverse}
use mathlib.Core.Option.{Option, none, some}
use native.Mathlib.Omega.{arith}
use netdata_postgres_mcp.Base.Tests.{leb, ◌==◌, if◌then◌else◌}
use netdata_postgres_mcp.Base.Lists.{length, take, drop}

abbrev pub Bytes : Type 0
Bytes = List ℕ

-- A string literal, which is ASCII throughout the program.
unfoldable pub str : String → Bytes
str String.[] = []
str (String.◌∷◌ c s) = code c ∷ str s

-- s == t
unfoldable pub eq_str : Bytes → Bytes → Bool
eq_str [] [] = true
eq_str [] (b ∷ t) = false
eq_str (a ∷ s) [] = false
eq_str (a ∷ s) (b ∷ t) = (a == b) && eq_str s t

pub eq_str→eq : (s t : Bytes) → eq_str s t ≡ true → s ≡ t
unfolding eq_str
eq_str→eq [] [] h = refl
eq_str→eq [] (b ∷ t) h = cc
eq_str→eq (a ∷ s) [] h = cc
eq_str→eq (a ∷ s) (b ∷ t) h = ground (arith, eq_str→eq s t)

pub eq_str_refl : (s : Bytes) → eq_str s s ≡ true
unfolding eq_str
eq_str_refl [] = refl
eq_str_refl (a ∷ s) = ground (arith, eq_str_refl s)

pub eq_str_iff : (s t : Bytes) → (eq_str s t ≡ true) ↔ (s ≡ t)
eq_str_iff s t = (eq_str→eq s t, λ e. rw e (eq_str_refl t))

-- s == ""
unfoldable pub is_empty : Bytes → Bool
is_empty [] = true
is_empty (a ∷ s) = false

-- strings.HasPrefix
unfoldable pub has_prefix : Bytes → Bytes → Bool
has_prefix s [] = true
has_prefix [] (b ∷ t) = false
has_prefix (a ∷ s) (b ∷ t) = (a == b) && has_prefix s t

-- strings.HasSuffix
unfoldable pub has_suffix : Bytes → Bytes → Bool
unfolding has_prefix
has_suffix s t = has_prefix (reverse s) (reverse t)

-- strings.Contains
unfoldable pub contains : Bytes → Bytes → Bool
unfolding has_prefix
contains [] t = has_prefix [] t
contains (a ∷ s) t = has_prefix (a ∷ s) t || contains s t

-- strings.ToLower, on ASCII
unfoldable pub to_lower : Bytes → Bytes
to_lower = map (λ c. if leb b'A' c && leb c b'Z' then c + 32 else c)

-- strings.TrimSuffix
unfoldable pub trim_suffix : Bytes → Bytes → Bytes
unfolding has_suffix
trim_suffix s t = if has_suffix s t then take (length s - length t) s else s

-- strings.IndexByte, `none` for -1
unfoldable pub index_byte : Bytes → ℕ → Option ℕ
index_byte [] c = none
index_byte (a ∷ s) c =
    if a == c then some 0 else elim (index_byte s c) [ none ↦ none | some i ↦ some (suc i) ]

-- unicode.IsSpace, on ASCII
unfoldable pub is_space : ℕ → Bool
is_space c = (c == 32) || (leb 9 c && leb c 13)

unfoldable pub trim_left_space : Bytes → Bytes
unfolding is_space
trim_left_space [] = []
trim_left_space (a ∷ s) = let rest = trim_left_space s in if is_space a then rest else a ∷ s

-- strings.TrimSpace
unfoldable pub trim_space : Bytes → Bytes
unfolding trim_left_space
trim_space s = reverse (trim_left_space (reverse (trim_left_space s)))

-- strings.Split by a separator of one byte: `part` is what the current part has so far.
unfoldable pub split_from : ℕ → Bytes → Bytes → List Bytes
split_from sep part [] = part ∷ []
split_from sep part (c ∷ s) =
    let ended = split_from sep [] s in
    let continued = split_from sep (part ++ (c ∷ [])) s in
    if c == sep then part ∷ ended else continued

unfoldable pub split : ℕ → Bytes → List Bytes
unfolding split_from
split sep s = split_from sep [] s

trim_space_runs : trim_space (str "  a b ") ≡ str "a b"
unfolding trim_space str
trim_space_runs = refl

contains_runs : contains (str "show cpu now") (str "cpu") ≡ true
unfolding contains str
contains_runs = refl

abbrev pub split_at : ℕ → Option ℕ → Bytes → (Bytes → List Bytes) → List Bytes
split_at sep none s rest = s ∷ []
split_at sep (some i) s rest = take i s ∷ rest (drop (suc i) s)

-- strings.SplitN by a separator of one byte, for at least one part
unfoldable pub split_n : ℕ → ℕ → Bytes → List Bytes
unfolding index_byte
split_n sep zero s = []
split_n sep (suc zero) s = s ∷ []
split_n sep (suc (suc n)) s = split_at sep (index_byte s sep) s (split_n sep (suc n))

split_n_runs : split_n b',' 3 (str "a,b,c,d") ≡ str "a" ∷ str "b" ∷ str "c,d" ∷ []
unfolding split_n index_byte str
split_n_runs = refl
