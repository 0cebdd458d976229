-- ===== src/Mcp/Summary/Keys.antt =====
-- The keys of the samples in `handleSummarize` of internal/mcp/server.go, and the names that
-- `buildSummary` compares them with.
use mathlib.Core.List.{append_assoc}
use netdata_postgres_mcp.Base.{
  ◌≡◌, refl, Bool, Bool-cases, inl, inr, none, true, false, ◌||◌, [], ◌∷◌, ◌++◌, some, ◌==◌, arith,
}
use netdata_postgres_mcp.Base.Text.{Bytes, str, is_empty, eq_str, eq_str→eq, eq_str_refl}
use netdata_postgres_mcp.Base.Assoc.{Assoc}
use netdata_postgres_mcp.Base.Floats.{Float, raise}
use netdata_postgres_mcp.Mcp.Summary.{DimStats, sample_key}
use netdata_postgres_mcp.Mcp.Summary.Sections.{average, cpu_totals, ram_used}

has_slash : Bytes → Bool
has_slash [] = false
has_slash (c ∷ s) = (c == b'/') || has_slash s

has_slash-append : (s t : Bytes) → has_slash (s ++ (b'/' ∷ t)) ≡ true
unfolding has_slash
has_slash-append [] t = refl
has_slash-append (c ∷ s) t = ground (arith, has_slash-append s t)

key_slash :
    (inst dim : Bytes) → is_empty inst ≡ false → has_slash (sample_key (some inst) dim) ≡ true
unfolding sample_key str
key_slash inst dim e = rw (e, append_assoc) (has_slash-append inst dim)

other_name : (k name : Bytes) → has_slash k ≡ true → has_slash name ≡ false → eq_str k name ≡ false
other_name k name h n = elim (Bool-cases (eq_str k name)) [
  | inr e ↦ e
  | inl e ↦ let same = eq_str→eq k name e in absurd (true-ne-false (rw (same, n) at h))
]
  where
    true-ne-false : Path Bool false true → ⊥
    true-ne-false p = cc

no_instance : (dim : Bytes) → sample_key none dim ≡ dim
unfolding sample_key
no_instance dim = refl

idle_slash : has_slash (str "idle") ≡ false
unfolding has_slash str
idle_slash = refl

used_slash : has_slash (str "used") ≡ false
unfolding has_slash str
used_slash = refl

-- A sample's idle time is left out of the processor's totals, and its used memory is the one reported,
-- if it has no instance. With an instance, the idle time is added to the average and to
-- the peak of the processor's use, and the used memory is passed over.
pub sample_key_instance :
    {F : Type 0} (float : Float F) (total : F × F) (inst : Bytes) (ds : DimStats F)
    (dims : Assoc (DimStats F))
    → is_empty inst ≡ false
    → (cpu_totals float total ((sample_key (some inst) (str "idle"), ds) ∷ dims)
        ≡ cpu_totals float (float.add total.0 (average float ds), raise float total.1 ds.max) dims)
      × ((cpu_totals float total ((sample_key none (str "idle"), ds) ∷ dims)
            ≡ cpu_totals float total dims)
          × ((ram_used float total ((sample_key (some inst) (str "used"), ds) ∷ dims)
                ≡ ram_used float total dims)
              × (ram_used float total ((sample_key none (str "used"), ds) ∷ dims)
                  ≡ ram_used float (average float ds, ds.max) dims)))
unfolding cpu_totals ram_used
sample_key_instance float total inst ds dims e = (
  rw (other_name _ (str "idle") (key_slash inst (str "idle") e) idle_slash) refl,
  (
    rw (no_instance (str "idle"), eq_str_refl (str "idle")) refl,
    (
      rw (other_name _ (str "used") (key_slash inst (str "used") e) used_slash) refl,
      rw (no_instance (str "used"), eq_str_refl (str "used")) refl,
    ),
  ),
)
