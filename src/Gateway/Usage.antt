-- ===== src/Gateway/Usage.antt =====
-- The usage in the lines of a stream, of week01_llm-gateway/app/services/gateway.py: `_merge_usage`,
-- `_apply_stream_event`, `_consume_stream_chunk` and `_flush_stream_buffer`.
use my_ai_agent_fullstack_tr.Base.{
  Bool, List, Option, [], if◌then◌else◌, is_some, list_eq, nat_eq, none, not, option_eq, pair_eq,
  some, ℕ, ◌&&◌, ◌++◌, ◌==◌, ◌∷◌,
}
use my_ai_agent_fullstack_tr.Domain.Models.{Text}

-- `class NormalizedUsage`
pub record NormalizedUsage : Type 0 where
  pub input_tokens : ℕ
  pub output_tokens : ℕ
  pub cached_tokens : ℕ

-- `class UnifiedStreamEvent`: whether its type is `text_delta`, and its usage.
pub record UnifiedStreamEvent : Type 0 where
  pub is_text_delta : Bool
  pub event_usage : Option NormalizedUsage

-- What the stream changes of the metrics.
pub record Reading : Type 0 where
  pub tokens : NormalizedUsage
  pub first_token_ms : Option ℕ

-- `if usage.input_tokens: metrics.input_tokens = usage.input_tokens`
abbrev newer : ℕ → ℕ → ℕ
newer old new = if new == 0 then old else new

-- `_merge_usage`
unfoldable pub merge_usage : NormalizedUsage → NormalizedUsage → NormalizedUsage
merge_usage m u = record {
  input_tokens = newer m.input_tokens u.input_tokens;
  output_tokens = newer m.output_tokens u.output_tokens;
  cached_tokens = newer m.cached_tokens u.cached_tokens;
}

abbrev pub with_usage : Option NormalizedUsage → NormalizedUsage → NormalizedUsage
with_usage none m = m
with_usage (some u) m = merge_usage m u

-- `_apply_stream_event`, some milliseconds after the start.
unfoldable pub apply_stream_event : ℕ → Option UnifiedStreamEvent → Reading → Reading
unfolding merge_usage
apply_stream_event elapsed none m = m
apply_stream_event elapsed (some e) m = record {
  tokens = with_usage e.event_usage m.tokens;
  first_token_ms =
      if e.is_text_delta && not (is_some m.first_token_ms) then some elapsed else m.first_token_ms;
}

-- `buffer.split(b"\n")`, with the last part, that `lines.pop()` takes off, apart.
unfoldable pub split_lines : Text → Text → List Text × Text
split_lines line [] = ([], line)
split_lines line (c ∷ t) =
    let (lines, rest) = split_lines (if c == 10 then [] else line ++ c ∷ []) t in
    if c == 10 then (line ∷ lines, rest) else (lines, rest)

unfoldable pub apply_lines : (Text → Option UnifiedStreamEvent) → ℕ → List Text → Reading → Reading
unfolding apply_stream_event
apply_lines parse elapsed [] m = m
apply_lines parse elapsed (line ∷ lines) m =
    apply_lines parse elapsed lines (apply_stream_event elapsed (parse line) m)

-- `_consume_stream_chunk`: the buffer that is left, and the metrics.
unfoldable pub consume_stream_chunk :
    (Text → Option UnifiedStreamEvent) → ℕ → Text → Text → Reading → Text × Reading
unfolding split_lines apply_lines
consume_stream_chunk parse elapsed buffer chunk m =
    let (lines, rest) = split_lines [] (buffer ++ chunk) in
    (rest, apply_lines parse elapsed lines m)

-- `_flush_stream_buffer`; `is_blank` is `not buffer.strip()`.
unfoldable pub flush_stream_buffer :
    (Text → Option UnifiedStreamEvent) → (Text → Bool) → ℕ → Text → Reading → Reading
unfolding apply_stream_event
flush_stream_buffer parse is_blank elapsed buffer m =
    if not (is_blank buffer) then apply_stream_event elapsed (parse buffer) m else m
