-- ===== src/Engine/Heard.antt =====
-- What a chat turn takes over from the engine's streams: the text and the token usage.
use aiplatform.Shared.{ℕ, false, ◌≡◌, Bool, some}
use aiplatform.State.{Outside}
use aiplatform.Chat.Opening.{Gathered}
use aiplatform.Engine.Metrics.{extract_token_usage, extract_final_metrics}
use aiplatform.Engine.Events.{AgnoEvent}
use aiplatform.Engine.Streams.{AgnoRun}
use aiplatform.Engine.Answers.{spoken}

-- The text of these events of the run, and the usage that the finished run reports.
abbrev pub heard_of : (AgnoEvent → Bool) → AgnoRun → Gathered
heard_of own run = record {
  parts = spoken own run.acts;
  input_tokens = (extract_token_usage (extract_final_metrics run.run_response)).0;
  output_tokens = (extract_token_usage (extract_final_metrics run.run_response)).1;
}

-- No poll finds that the run is to be cancelled.
abbrev pub IsLeftAlone : Outside → ℕ → Type 0
IsLeftAlone o run_id = (n : ℕ) → o.cancel_requested n run_id ≡ some false
