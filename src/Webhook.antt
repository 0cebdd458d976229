-- ===== src/Webhook.antt =====
-- internal/webhook/webhook.go: `Notify`. The sending of a request is a parameter, and so are the
-- clock's readings. Confidences are of a type `F` with the test `<` of float64.
pub mod Cooldown
mod Tests
use netdata_postgres_mcp.Base.{
  ℕ, ◌+◌, ◌-◌, ◌*◌, Bool, true, false, List, [], ◌∷◌, ◌++◌, Option, none, some, length, ltb, ◌==◌,
  ◌||◌, if◌then◌else◌,
}
use netdata_postgres_mcp.Base.Text.{Bytes, str, eq_str, is_empty}

-- cooldown_minutes is not negative.
pub record Config (F : Type 0) : Type 0 where
  pub url : Bytes
  pub min_confidence : F
  pub cooldown_minutes : ℕ
  pub include_evidence : Bool

pub record EvidenceDetail (F : Type 0) : Type 0 where
  pub context : Bytes
  pub dimension : Bytes
  pub avg_value : F
  pub max_value : F

pub record Payload (F : Type 0) : Type 0 where
  pub timestamp : ℕ
  pub node_id : Bytes
  pub bottleneck_type : Bytes
  pub confidence : F
  pub explanation : Bytes
  pub evidence : List (EvidenceDetail F)

-- time.Minute
abbrev pub minute : ℕ
minute = 60000000000

-- lastSent
abbrev pub LastSent : Type 0
LastSent = Bytes → Option ℕ

unfoldable pub set_sent : LastSent → Bytes → ℕ → LastSent
set_sent sent key t k = if eq_str k key then some t else sent k

abbrev pub cooldown_key : Bytes → Bytes → Bytes
cooldown_key node_id bottleneck_type = node_id ++ (str ":" ++ bottleneck_type)

-- The three readings of the clock for a webhook, and whether `send` returns no error.
pub record Attempt : Type 0 where
  pub now : ℕ
  pub stamped_at : ℕ
  pub accepted : Bool
  pub sent_at : ℕ

module _ {F : Type 0} (less : F → F → Bool) (is_zero : F → Bool) (default_confidence : F) where
  -- if minConf == 0 { minConf = 0.7 }
  abbrev pub min_conf : Config F → F
  min_conf cfg = if is_zero cfg.min_confidence then default_confidence else cfg.min_confidence

  -- if cooldown == 0 { cooldown = 15 * time.Minute }
  abbrev pub cooldown_of : Config F → ℕ
  cooldown_of cfg = if cfg.cooldown_minutes == 0 then 15 * minute else cfg.cooldown_minutes * minute

  abbrev pub is_cooling : Config F → ℕ → Option ℕ → Bool
  is_cooling cfg now none = false
  is_cooling cfg now (some last) = ltb (now - last) (cooldown_of cfg)

  abbrev pub payload_for : Config F → Payload F → ℕ → Payload F
  payload_for cfg p stamp = record p {
    timestamp = stamp;
    evidence = if cfg.include_evidence then p.evidence else [];
  }

  -- The requests sent, with their URLs, and `lastSent` after the loop.
  unfoldable pub notify_loop :
      Payload F → Bytes → List (Config F × Attempt) → LastSent → List (Bytes × Payload F) × LastSent
  unfolding set_sent
  notify_loop p key [] sent = ([], sent)
  notify_loop p key ((cfg, a) ∷ rest) sent =
      let skipped = notify_loop p key rest sent in
      let marked = notify_loop p key rest (set_sent sent key a.sent_at) in
      let request : Bytes × Payload F = (cfg.url, payload_for cfg p a.stamped_at) in
      if is_empty cfg.url
      then skipped
      else if less p.confidence (min_conf cfg)
      then skipped
      else if is_cooling cfg a.now (sent key)
      then skipped
      else if a.accepted
      then (request ∷ marked.0, marked.1)
      else (request ∷ skipped.0, skipped.1)

  -- Each webhook with its attempt.
  unfoldable pub notify :
      List (Config F × Attempt) → Payload F → LastSent → List (Bytes × Payload F) × LastSent
  unfolding notify_loop
  notify webhooks p sent =
      if (length webhooks == 0) || eq_str p.bottleneck_type (str "none")
      then ([], sent)
      else notify_loop p (cooldown_key p.node_id p.bottleneck_type) webhooks sent
