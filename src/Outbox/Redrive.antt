-- ===== src/Outbox/Redrive.antt =====
-- internal/biz/outbox/redrive.go: the command that opens an event again.
use ai_go.Common.{ℕ, Bool, not, ◌&&◌, ◌||◌, leb}
use ai_go.Common.Int.{ℤ, pos, ltb_ℤ}
use ai_go.Common.Text.{Text, is_empty, is_trimmed, length}
use ai_go.Common.Clock.{Time, is_zero}
use ai_go.Outbox.Event.{max_redrive_count}

abbrev pub max_redrive_text_length : ℕ
max_redrive_text_length = 200

pub record RedriveCommand : Type 0 where
  pub event_id : Text
  pub expected_redrive_count : ℤ  -- int32
  pub actor_id : Text
  pub reason : Text
  pub key : Text
  pub at : Time

unfoldable pub valid_redrive_text : Text → Bool
valid_redrive_text value =
    not (is_empty value) && leb (length value) max_redrive_text_length && is_trimmed value

unfoldable pub invalid_redrive : RedriveCommand → Bool
unfolding valid_redrive_text
invalid_redrive c =
    not (valid_redrive_text c.event_id)
    || ltb_ℤ c.expected_redrive_count (pos 0)
    || ltb_ℤ max_redrive_count c.expected_redrive_count
    || not (valid_redrive_text c.actor_id)
    || not (valid_redrive_text c.reason)
    || not (valid_redrive_text c.key)
    || is_zero c.at
