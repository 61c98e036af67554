-- ===== src/Gateway/Chunks.antt =====
-- The chunks of one stream in `GatewayService.stream` of week01_llm-gateway/app/services/gateway.py: what
-- the upstream and the client do, the variables of `generate`, and the loop that passes chunks on.
use my_ai_agent_fullstack_tr.Base.{
  Bool, List, Option, [], false, if◌then◌else◌, list_eq, nat_eq, not, option_eq, pair_eq, true, ℕ,
  ◌&&◌, ◌++◌, ◌+◌, ◌||◌, ◌∷◌,
}
use my_ai_agent_fullstack_tr.Domain.Models.{Text}
use my_ai_agent_fullstack_tr.Gateway.{RouteTarget, route_target_eq}
use my_ai_agent_fullstack_tr.Gateway.Complete.{RetryBudget, UnifiedRequest}
use my_ai_agent_fullstack_tr.Gateway.Router.{ModelRouter, record_success}
use my_ai_agent_fullstack_tr.Gateway.Usage.{
  Reading, UnifiedStreamEvent, apply_lines, consume_stream_chunk, flush_stream_buffer, split_lines,
}

-- An opened stream: its chunks, and whether it ends or breaks off with an error that can be retried.
pub data StreamEnd : Type 0 where
  complete_end : StreamEnd
  broken : Bool → StreamEnd

-- What `open_stream` does: it opens a stream, raises an `UpstreamError`, or lets another error of httpx
-- pass (`RemoteProtocolError` is neither a `TimeoutException` nor a `NetworkError`).
pub data Opening : Type 0 where
  opened : List Text → StreamEnd → Opening
  open_error : Bool → Opening
  open_raises : Opening

-- How the loop over the chunks ends: after the last one, with the client gone, or by the exception of
-- a line that cannot be parsed.
pub data Passage : Type 0 where
  passed gone raised : Passage

-- What `stream` calls, by the number of the attempt, and of the chunk in it. `parse_raises` says on
-- which lines `parse_stream_line` raises: it calls `get` on JSON that need not be an object.
pub record StreamServices : Type 0 where
  pub open_stream : ℕ → RouteTarget → UnifiedRequest → Opening
  pub is_disconnected : ℕ → ℕ → Bool
  pub parse_stream_line : Text → Option UnifiedStreamEvent
  pub parse_raises : Text → Bool
  pub is_blank : Text → Bool
  pub elapsed_ms : ℕ → ℕ → ℕ
  pub flushed_ms : ℕ → ℕ
  pub failure_at : ℕ → ℕ

-- What the client receives.
pub data Output : Type 0 where
  bytes : Text → Output
  error_event : Output
  done_marker : Output

pub data StreamStatus : Type 0 where
  open_stream_status success cancelled error_status escaped : StreamStatus

-- The variables of `generate`, the router, and what has been yielded.
pub record StreamState : Type 0 where
  pub retry_budget : RetryBudget
  pub router : ModelRouter
  pub reading : Reading
  pub parse_buffer : Text
  pub emitted : Bool
  pub retries : ℕ
  pub status : StreamStatus
  pub output : List Output

-- One chunk: it is read, and passed on, unless it is empty.
unfoldable pub pass_chunk : StreamServices → ℕ → ℕ → Text → StreamState → StreamState
unfolding consume_stream_chunk
pass_chunk services attempt i [] s = s
pass_chunk services attempt i (c ∷ chunk) s =
    let (rest, reading) =
      consume_stream_chunk services.parse_stream_line (services.elapsed_ms attempt i) s.parse_buffer
        (c ∷ chunk) s.reading in
    record s {
      emitted = true;
      parse_buffer = rest;
      reading = reading;
      output = s.output ++ Output.bytes (c ∷ chunk) ∷ [];
    }

-- The lines before the first one on which the parser raises.
unfoldable lines_before : (Text → Bool) → List Text → List Text
lines_before raises [] = []
lines_before raises (line ∷ lines) =
    let rest = lines_before raises lines in if raises line then [] else line ∷ rest

unfoldable pub any_raises : (Text → Bool) → List Text → Bool
any_raises raises [] = false
any_raises raises (line ∷ lines) = raises line || any_raises raises lines

-- Whether reading a chunk raises.
unfoldable pub chunk_raises : StreamServices → Text → StreamState → Bool
unfolding any_raises split_lines
chunk_raises services [] s = false
chunk_raises services (c ∷ chunk) s =
    any_raises services.parse_raises (split_lines [] (s.parse_buffer ++ c ∷ chunk)).0

-- An exception leaves `generate`.
abbrev pub escape : StreamState → StreamState
escape s = record s { status = StreamStatus.escaped }

-- A chunk on which the parser raises: the lines before have been read, and it is not passed on.
unfoldable pub raise_chunk : StreamServices → ℕ → ℕ → Text → StreamState → StreamState
unfolding lines_before split_lines apply_lines
raise_chunk services attempt i chunk s = record s {
  emitted = true;
  status = StreamStatus.escaped;
  reading =
      apply_lines services.parse_stream_line (services.elapsed_ms attempt i)
        (lines_before services.parse_raises (split_lines [] (s.parse_buffer ++ chunk)).0) s.reading;
}

-- `async for chunk`
unfoldable pub pass_chunks :
    StreamServices → ℕ → ℕ → List Text → StreamState → Passage × StreamState
unfolding pass_chunk chunk_raises raise_chunk
pass_chunks services attempt i [] s = (Passage.passed, s)
pass_chunks services attempt i (chunk ∷ chunks) s =
    let rest =
      pass_chunks services attempt (i + 1) chunks (pass_chunk services attempt i chunk s) in
    if services.is_disconnected attempt i
    then (Passage.gone, record s { status = StreamStatus.cancelled })
    else if chunk_raises services chunk s
    then (Passage.raised, raise_chunk services attempt i chunk s)
    else rest

-- What follows the last chunk of a stream that ends.
unfoldable pub finish_stream : StreamServices → ℕ → RouteTarget → StreamState → StreamState
unfolding flush_stream_buffer
finish_stream services attempt target s = record s {
  reading =
      flush_stream_buffer services.parse_stream_line services.is_blank (services.flushed_ms attempt)
        s.parse_buffer s.reading;
  router = record_success target.provider s.router;
  status = StreamStatus.success;
}

-- Whether `_flush_stream_buffer` raises.
abbrev pub flush_raises : StreamServices → StreamState → Bool
flush_raises services s =
    not (services.is_blank s.parse_buffer) && services.parse_raises s.parse_buffer
