-- ===== src/Webhook/Tests.antt =====
-- internal/webhook/webhook.go with two webhooks, confidences in percent.
use netdata_postgres_mcp.Base.{ℕ, ◌≡◌, refl, true, false, [], ◌∷◌, some, ltb, ◌==◌, Bool, arith}
use netdata_postgres_mcp.Base.Text.{str, eq_str, is_empty}
use netdata_postgres_mcp.Webhook.{Config, Payload, LastSent, payload_for, notify}
use netdata_postgres_mcp.Webhook.Cooldown.{notify_two}

abbrev zero? : ℕ → Bool
zero? n = n == 0

abbrev chat : Config ℕ
chat = record {
  url = str "http://chat";
  min_confidence = 0;
  cooldown_minutes = 0;
  include_evidence = false;
}

abbrev pager : Config ℕ
pager = record {
  url = str "http://pager";
  min_confidence = 50;
  cooldown_minutes = 1;
  include_evidence = true;
}

abbrev disk_full : Payload ℕ
disk_full = record {
  timestamp = 0;
  node_id = str "n1";
  bottleneck_type = str "disk";
  confidence = 90;
  explanation = [];
  evidence = [];
}

-- A notification that was sent so long ago that no cooldown holds.
abbrev long_ago : LastSent
long_ago key = some 100

notify_two_example :
    (notify ltb zero? 70
      ((
        chat,
        record {
          now = 400000000000000;
          stamped_at = 5;
          accepted = true;
          sent_at = 400000000000001;
        },
      )
        ∷ (pager, record { now = 400000000000002; stamped_at = 7; accepted = true; sent_at = 8 })
        ∷ [])
      disk_full
      long_ago).0
    ≡ (chat.url, payload_for ltb zero? 70 chat disk_full 5) ∷ []
unfolding eq_str is_empty str
notify_two_example =
    notify_two ltb zero? 70 disk_full long_ago chat pager 400000000000000 400000000000002 5 7
      400000000000001 8 true refl (refl, (refl, tt)) (refl, (refl, tt)) refl refl (omega arith)
