-- ===== src/Webhook/Cooldown.antt =====
-- The cooldown of internal/webhook/webhook.go.
use netdata_postgres_mcp.Base.{
  ℕ, ◌-◌, ◌<◌, ◌≡◌, refl, ◌⊎◌, inl, inr, Bool, true, false, ◌||◌, List, [], ◌∷◌, Option, All,
  length, lt→ltb, ◌==◌, if◌then◌else◌,
}
use netdata_postgres_mcp.Base.Text.{Bytes, str, eq_str, eq_str_refl, is_empty}
use netdata_postgres_mcp.Webhook.{
  Config, Payload, LastSent, set_sent, cooldown_key, Attempt, min_conf, cooldown_of, is_cooling,
  payload_for, notify_loop, notify,
}

if_same : {A : Type 0} (b : Bool) (x : A) → (if b then x else x) ≡ x
if_same true x = refl
if_same false x = refl

module _ {F : Type 0} (less : F → F → Bool) (is_zero : F → Bool) (default_confidence : F) where
  -- A webhook that the loop passes over: without a URL, above the confidence, or in its cooldown.
  abbrev pub Quiet : Payload F → Option ℕ → Config F × Attempt → Type 0
  Quiet p last (cfg, a) =
      (is_empty cfg.url ≡ true)
      ⊎ ((less p.confidence (min_conf less is_zero default_confidence cfg) ≡ true)
          ⊎ (is_cooling less is_zero default_confidence cfg a.now last ≡ true))

  notify_loop-Quiet :
      (p : Payload F) (key : Bytes) (webhooks : List (Config F × Attempt)) (sent : LastSent)
      → All (Quiet p (sent key)) webhooks
      → notify_loop less is_zero default_confidence p key webhooks sent ≡ ([], sent)
  unfolding notify_loop
  notify_loop-Quiet p key [] sent h = refl
  notify_loop-Quiet p key ((cfg, a) ∷ rest) sent h =
      let ih = notify_loop-Quiet p key rest sent h.1 in
      elim h.0 [
        | inl e ↦ rw e ih
        | inr (inl e) ↦ rw (e, ih) (if_same (is_empty cfg.url) _)
        | inr (inr e) ↦
            rw (e, ih, if_same (less p.confidence (min_conf less is_zero default_confidence cfg)))
              (if_same (is_empty cfg.url) _)
      ]

  -- If every webhook has no URL, asks for more confidence than the payload's, or is within its cooldown
  -- after the last notification of the same node and type, nothing is sent and no time is recorded.
  pub notify-Quiet :
      (webhooks : List (Config F × Attempt)) (p : Payload F) (sent : LastSent)
      → All (Quiet p (sent (cooldown_key p.node_id p.bottleneck_type))) webhooks
      → notify less is_zero default_confidence webhooks p sent ≡ ([], sent)
  unfolding notify
  notify-Quiet webhooks p sent h =
      rw (notify_loop-Quiet p (cooldown_key p.node_id p.bottleneck_type) webhooks sent h)
        (if_same ((length webhooks == 0) || eq_str p.bottleneck_type (str "none")) _)

  -- For a bottleneck that is not `none`, and two webhooks with URLs for which the payload is confident
  -- enough, neither within its cooldown after the last notification of the same node and type, if
  -- there was one: if the first accepts the notification and the second reads the clock within its
  -- own cooldown after that, the second is passed over; if the first fails, the second is sent too.
  pub notify_two :
      (p : Payload F) (sent : LastSent) (c d : Config F) (now now' stamp stamp' at at' : ℕ)
      (accepted : Bool)
      → eq_str p.bottleneck_type (str "none") ≡ false
      → All (λ (cfg : Config F). is_empty cfg.url ≡ false) (c ∷ d ∷ [])
      → All
          (λ (cfg : Config F).
            less p.confidence (min_conf less is_zero default_confidence cfg) ≡ false)
          (c ∷ d ∷ [])
      → is_cooling less is_zero default_confidence c now
          (sent (cooldown_key p.node_id p.bottleneck_type))
        ≡ false
      → is_cooling less is_zero default_confidence d now'
          (sent (cooldown_key p.node_id p.bottleneck_type))
        ≡ false
      → now' - at < cooldown_of less is_zero default_confidence d
      → (notify less is_zero default_confidence
          ((c, record { now = now; stamped_at = stamp; accepted = accepted; sent_at = at })
            ∷ (d, record { now = now'; stamped_at = stamp'; accepted = true; sent_at = at' })
            ∷ [])
          p
          sent).0
        ≡ (if accepted
            then (c.url, payload_for less is_zero default_confidence c p stamp) ∷ []
            else (c.url, payload_for less is_zero default_confidence c p stamp)
              ∷ (d.url, payload_for less is_zero default_confidence d p stamp')
              ∷ [])
  unfolding notify notify_loop set_sent
  notify_two p sent c d now now' stamp stamp' at at' true typed urls confident fresh fresh' within =
      rw
        (
          typed,
          urls.0,
          urls.1.0,
          confident.0,
          confident.1.0,
          fresh,
          eq_str_refl,
          is_cooling,
          lt→ltb _ _ within,
        )
        refl
  notify_two p sent c d now now' stamp stamp' at at' false typed urls confident fresh fresh'
        within =
      rw (typed, urls.0, urls.1.0, confident.0, confident.1.0, fresh, fresh') refl
