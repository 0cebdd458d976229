-- ===== src/Store/Migrate/Recorded.antt =====
-- The versions that `Migrate` of internal/store/store.go finds in schema_migrations.
use netdata_postgres_mcp.Base.{◌≡◌, refl, inl, inr, true, List, [], ◌∷◌, ◌++◌, Bool-cases, arith}
use netdata_postgres_mcp.Base.Text.{Bytes, eq_str, eq_str_refl}
use netdata_postgres_mcp.Store.Migrate.{is_recorded}

pub is_recorded-left :
    (v : Bytes) (xs ys : List Bytes) → is_recorded v xs ≡ true → is_recorded v (xs ++ ys) ≡ true
unfolding is_recorded
is_recorded-left v [] ys h = ground arith
is_recorded-left v (x ∷ xs) ys h = elim (Bool-cases (eq_str x v)) [
  | inl e ↦ rw e refl
  | inr e ↦ let h' : is_recorded v xs ≡ true = rw e at h in rw (e, is_recorded-left v xs ys h') refl
]

pub is_recorded_last : (v : Bytes) (xs : List Bytes) → is_recorded v (xs ++ (v ∷ [])) ≡ true
unfolding is_recorded
is_recorded_last v [] = rw (eq_str_refl v) refl
is_recorded_last v (x ∷ xs) = elim (Bool-cases (eq_str x v)) [
  | inl e ↦ rw e refl
  | inr e ↦ rw (e, is_recorded_last v xs) refl
]
