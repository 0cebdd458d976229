-- ===== src/Mcp/Times.antt =====
-- internal/mcp/server.go: `parseTimeArg`. time.ParseDuration and time.Parse are parameters, `none`
-- for their errors; a duration is a number of nanoseconds, of any sign.
pub mod Relative
use netdata_postgres_mcp.Base.{
  ℕ, ℤ, pos, negsuc, suc, ◌+◌, ◌-◌, List, [], ◌∷◌, Option, none, some, drop, map, if◌then◌else◌,
}
use netdata_postgres_mcp.Base.Text.{Bytes, str, is_empty, has_prefix, trim_space}

-- now.Add(-dur); `now` is 2000 years and more after the first instant, and no duration reaches 300.
unfoldable pub before_now : ℕ → ℤ → ℕ
before_now now (pos d) = now - d
before_now now (negsuc d) = now + suc d

unfoldable pub layouts : List Bytes
layouts =
    str "2006-01-02T15:04:05Z07:00"
    ∷ str "2006-01-02T15:04:05.999999999Z07:00"
    ∷ str "2006-01-02T15:04:05"
    ∷ str "2006-01-02 15:04:05"
    ∷ str "2006-01-02"
    ∷ []

module _ (parse_duration : Bytes → Option ℤ) (parse_layout : Bytes → Bytes → Option ℕ) where
  -- The first layout that fits.
  unfoldable pub parse_layouts : List Bytes → Bytes → Option ℕ
  parse_layouts [] s = none
  parse_layouts (layout ∷ rest) s = elim (parse_layout layout s) [
    | some t ↦ some t
    | none ↦ parse_layouts rest s
  ]

  -- The time before now, if the text is a duration.
  unfoldable pub relative : ℕ → Bytes → Option ℕ
  unfolding before_now
  relative now s = elim (parse_duration (drop 1 s)) [
    | some dur ↦ some (before_now now dur)
    | none ↦ parse_layouts layouts s
  ]

  -- `now` is the reading of time.Now; `none` is the error.
  unfoldable pub parse_time_arg : ℕ → Bytes → Option ℕ
  unfolding relative parse_layouts
  parse_time_arg now arg =
      let s = trim_space arg in
      if is_empty s
      then some now
      else if has_prefix s (str "-")
      then relative now s
      else parse_layouts layouts s
