-- ===== src/Gateway/Stream/Lines.antt =====
-- The lines that gateway.py reads from a stream do not depend on how its bytes come in chunks.
use my_ai_agent_fullstack_tr.Base.{
  Bool, Bool-cases, List, Option, [], ap, arith, if◌then◌else◌, inl, inr, is_some, list_eq, nat_eq,
  none, not, option_eq, pair_eq, refl, some, subst, sym, ℕ, ◌&&◌, ◌++◌, ◌+◌, ◌==◌, ◌||◌, ◌∙◌, ◌∷◌,
  ◌≡◌,
}
use my_ai_agent_fullstack_tr.Domain.Models.{Text}
use my_ai_agent_fullstack_tr.Gateway.{RouteTarget, route_target_eq}
use my_ai_agent_fullstack_tr.Gateway.Chunks.{
  Passage, StreamServices, StreamState, finish_stream, pass_chunk, pass_chunks,
}
use my_ai_agent_fullstack_tr.Gateway.Usage.{
  NormalizedUsage, Reading, UnifiedStreamEvent, apply_lines, apply_stream_event,
  consume_stream_chunk, flush_stream_buffer, split_lines, with_usage,
}

-- The lines of a text, and then those of what follows it.
split_lines-++ :
    (line a b : Text)
    → let (first, rest) = split_lines line a in
      let (second, rest') = split_lines rest b in
      split_lines line (a ++ b) ≡ (first ++ second, rest')
unfolding split_lines
split_lines-++ line [] b = refl
split_lines-++ line (c ∷ a) b = elim (Bool-cases (c == 10)) [
  | inl e ↦ rw (e) (ap (λ x. (line ∷ x.0, x.1)) (split_lines-++ [] a b))
  | inr e ↦ rw (e) (split_lines-++ (line ++ c ∷ []) a b)
]

-- A text without a newline.
IsPartial : Text → Type 0
IsPartial line = split_lines [] line ≡ ([], line)

empty-IsPartial : IsPartial []
unfolding IsPartial split_lines
empty-IsPartial = refl

split_lines-IsPartial : (line t : Text) → IsPartial line → IsPartial (split_lines line t).1
unfolding split_lines IsPartial
split_lines-IsPartial line [] p = p
split_lines-IsPartial line (c ∷ t) p = elim (Bool-cases (c == 10)) [
  | inl e ↦ rw (e) (split_lines-IsPartial [] t refl)
  | inr e ↦
      let longer : split_lines [] (line ++ c ∷ []) ≡ ([], line ++ c ∷ []) =
        split_lines-++ [] line (c ∷ []) ∙ rw (p, e) refl in
      rw (e) (split_lines-IsPartial (line ++ c ∷ []) t longer)
]

split_after :
    (buffer chunk : Text)
    → IsPartial buffer
    → split_lines [] (buffer ++ chunk) ≡ split_lines buffer chunk
unfolding IsPartial
split_after buffer chunk p = split_lines-++ [] buffer chunk ∙ rw (p) refl

module _ (parse : Text → Option UnifiedStreamEvent) where
  -- What the lines say, without the time of the first token.
  unfoldable note_event :
      Option UnifiedStreamEvent → NormalizedUsage × Bool → NormalizedUsage × Bool
  note_event none m = m
  note_event (some e) (tokens, seen) = (with_usage e.event_usage tokens, e.is_text_delta || seen)

  unfoldable note_lines : List Text → NormalizedUsage × Bool → NormalizedUsage × Bool
  unfolding note_event
  note_lines [] m = m
  note_lines (line ∷ lines) m = note_lines lines (note_event (parse line) m)

  pub untimed : Reading → NormalizedUsage × Bool
  untimed m = (m.tokens, is_some m.first_token_ms)

  apply_stream_event-untimed :
      (elapsed : ℕ) (e : Option UnifiedStreamEvent) (m : Reading)
      → untimed (apply_stream_event elapsed e m) ≡ note_event e (untimed m)
  unfolding apply_stream_event untimed note_event
  apply_stream_event-untimed elapsed none m = refl
  apply_stream_event-untimed elapsed (some e) m =
      let seen : is_some (
            if e.is_text_delta && not (is_some m.first_token_ms)
            then some elapsed
            else m.first_token_ms)
          ≡ (e.is_text_delta || is_some m.first_token_ms) =
        ground (arith) in
      ap (λ b. (with_usage e.event_usage m.tokens, b)) seen

  apply_lines-untimed :
      (elapsed : ℕ) (lines : List Text) (m : Reading)
      → untimed (apply_lines parse elapsed lines m) ≡ note_lines lines (untimed m)
  unfolding apply_lines note_lines
  apply_lines-untimed elapsed [] m = refl
  apply_lines-untimed elapsed (line ∷ lines) m =
      apply_lines-untimed elapsed lines (apply_stream_event elapsed (parse line) m)
      ∙ ap (note_lines lines) (apply_stream_event-untimed elapsed (parse line) m)

  note_lines-++ :
      (a b : List Text) (m : NormalizedUsage × Bool)
      → note_lines (a ++ b) m ≡ note_lines b (note_lines a m)
  unfolding note_lines
  note_lines-++ [] b m = refl
  note_lines-++ (line ∷ a) b m = note_lines-++ a b (note_event (parse line) m)

-- The bytes of all chunks.
unfoldable pub joined : List Text → Text
joined [] = []
joined (chunk ∷ chunks) = chunk ++ joined chunks

pass_chunk-lines :
    (services : StreamServices) (attempt i : ℕ) (chunk : Text) (s : StreamState)
    → IsPartial s.parse_buffer
    → let s' = pass_chunk services attempt i chunk s in
      let (lines, rest) = split_lines s.parse_buffer chunk in
      (s'.parse_buffer ≡ rest)
      × (untimed services.parse_stream_line s'.reading
          ≡ note_lines services.parse_stream_line lines
              (untimed services.parse_stream_line s.reading))
unfolding pass_chunk consume_stream_chunk note_lines
pass_chunk-lines services attempt i [] s p = (refl, refl)
pass_chunk-lines services attempt i (c ∷ chunk) s p =
    let e = split_after s.parse_buffer (c ∷ chunk) p in
    (
      ap (λ x. x.1) e,
      apply_lines-untimed services.parse_stream_line (services.elapsed_ms attempt i)
            (split_lines [] (s.parse_buffer ++ c ∷ chunk)).0 s.reading
          ∙ ap
              (λ x.
                note_lines services.parse_stream_line x.0
                  (untimed services.parse_stream_line s.reading))
              e,
    )

pass_chunk-IsPartial :
    (services : StreamServices) (attempt i : ℕ) (chunk : Text) (s : StreamState)
    → IsPartial s.parse_buffer
    → IsPartial (pass_chunk services attempt i chunk s).parse_buffer
pass_chunk-IsPartial services attempt i chunk s p =
    subst IsPartial (sym (pass_chunk-lines services attempt i chunk s p).0)
      (split_lines-IsPartial s.parse_buffer chunk p)

pass_chunks-lines :
    (services : StreamServices) (attempt i : ℕ) (chunks : List Text) (s s' : StreamState)
    → IsPartial s.parse_buffer
    → pass_chunks services attempt i chunks s ≡ (Passage.passed, s')
    → let (lines, rest) = split_lines s.parse_buffer (joined chunks) in
      (s'.parse_buffer ≡ rest)
      × (untimed services.parse_stream_line s'.reading
          ≡ note_lines services.parse_stream_line lines
              (untimed services.parse_stream_line s.reading))
unfolding pass_chunks joined note_lines
pass_chunks-lines services attempt i [] s s' p h =
    let same : s' ≡ s = ground (arith, h) in
    (ap (λ x. x.parse_buffer) same, ap (λ x. untimed services.parse_stream_line x.reading) same)
pass_chunks-lines services attempt i (chunk ∷ chunks) s s' p h =
    let parse = services.parse_stream_line in
    let s1 = pass_chunk services attempt i chunk s in
    let (b1, r1) = pass_chunk-lines services attempt i chunk s p in
    let (b2, r2) =
      pass_chunks-lines services attempt (i + 1) chunks s1 s'
        (pass_chunk-IsPartial services attempt i chunk s p) (ground (arith, h)) in
    let both = split_lines-++ s.parse_buffer chunk (joined chunks) in
    let (first, rest) = split_lines s.parse_buffer chunk in
    let second = (split_lines rest (joined chunks)).0 in
    let m = untimed parse s.reading in
    (
      b2 ∙ ap (λ x. (split_lines x (joined chunks)).1) b1 ∙ sym (ap (λ x. x.1) both),
      r2
          ∙ ap (λ x. note_lines parse (split_lines x (joined chunks)).0 (untimed parse s1.reading))
              b1
          ∙ ap (note_lines parse second) r1
          ∙ sym (note_lines-++ parse first second m)
          ∙ sym (ap (λ x. note_lines parse x.0 m) both),
    )

-- A whole text, read at once.
unfoldable pub note_whole : StreamServices → Text → NormalizedUsage × Bool → NormalizedUsage × Bool
unfolding note_lines
note_whole services t m =
    let (lines, rest) = split_lines [] t in
    let m' = note_lines services.parse_stream_line lines m in
    if not (services.is_blank rest)
    then note_event services.parse_stream_line (services.parse_stream_line rest) m'
    else m'

-- However the bytes of a stream come in chunks, the usage that is read from it, and whether there was
-- a token, are those of the lines of all its bytes together, the last line with them unless it is
-- blank.
pub pass_chunks_whole :
    (services : StreamServices) (attempt : ℕ) (target : RouteTarget) (chunks : List Text)
    (s s' : StreamState)
    → s.parse_buffer ≡ []
    → pass_chunks services attempt 0 chunks s ≡ (Passage.passed, s')
    → untimed services.parse_stream_line (finish_stream services attempt target s').reading
      ≡ note_whole services (joined chunks) (untimed services.parse_stream_line s.reading)
unfolding finish_stream flush_stream_buffer note_whole
pass_chunks_whole services attempt target chunks s s' empty h =
    let parse = services.parse_stream_line in
    let (b, r) =
      pass_chunks-lines services attempt 0 chunks s s' (subst IsPartial (sym empty) empty-IsPartial)
        h in
    let (lines, rest) = split_lines [] (joined chunks) in
    let b' : s'.parse_buffer ≡ rest = b ∙ ap (λ x. (split_lines x (joined chunks)).1) empty in
    let r' : untimed parse s'.reading ≡ note_lines parse lines (untimed parse s.reading) =
      r
      ∙ ap (λ x. note_lines parse (split_lines x (joined chunks)).0 (untimed parse s.reading))
          empty in
    let last =
      apply_stream_event-untimed parse (services.flushed_ms attempt) (parse rest) s'.reading in
    elim (Bool-cases (services.is_blank rest)) [
      | inl e ↦ rw (b', e) r'
      | inr e ↦ rw (b', e) (last ∙ ap (note_event parse (parse rest)) r')
    ]
