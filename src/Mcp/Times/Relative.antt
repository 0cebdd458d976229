-- ===== src/Mcp/Times/Relative.antt =====
-- The relative times of `parseTimeArg` of internal/mcp/server.go.
use netdata_postgres_mcp.Base.{ℕ, ℤ, pos, ◌-◌, ◌≡◌, refl, ◌∷◌, Option, some}
use netdata_postgres_mcp.Base.Text.{Bytes, str, is_empty, has_prefix, trim_space}
use netdata_postgres_mcp.Mcp.Times.{before_now, relative, parse_time_arg}

module _ (parse_duration : Bytes → Option ℤ) (parse_layout : Bytes → Bytes → Option ℕ) where
  -- A minus before a duration is that time before now.
  pub parse_time_arg_duration :
      (now d : ℕ) (s : Bytes)
      → trim_space (b'-' ∷ s) ≡ b'-' ∷ s
      → parse_duration s ≡ some (pos d)
      → parse_time_arg parse_duration parse_layout now (b'-' ∷ s) ≡ some (now - d)
  unfolding parse_time_arg relative before_now is_empty has_prefix str
  parse_time_arg_duration now d s t e = rw (t, relative, e) refl
