-- ===== src/Observability/Tracing/Nesting.antt =====
-- A span leaves nothing behind but its trace.
use ai_risk_engine.Observability.Tracing.{Span, TracingService, start_span, end_span, pop_if}
use ai_risk_engine.Prelude.{
  ℕ, ◌≡◌, refl, ap, ◌∙◌, String, none, List, ◌∷◌, lookup, eq_refl, remove, remove-insert,
}

-- The spans of properly nested calls: a body of spans, one after the other, each with its own body
-- and the time of its end.
pub data Spans : Type 0 where
  done : Spans
  spanned : Span → Spans → ℕ → Spans → Spans

unfoldable pub trace_all : Spans → TracingService → TracingService
trace_all done service = service
trace_all (spanned span body finish rest) service =
    trace_all rest (end_span span.span_id finish (trace_all body (start_span span service)))

-- The ids that `uuid4` draws are not active yet.
abbrev pub AreFresh : Spans → TracingService → Type 0
AreFresh done service = Unit
AreFresh (spanned span body finish rest) service =
    (lookup span.span_id service.active_spans ≡ none)
    × AreFresh body (start_span span service)
    × AreFresh rest (end_span span.span_id finish (trace_all body (start_span span service)))

top_popped : (id : String) (stack : List String) → pop_if id (id ∷ stack) ≡ stack
top_popped id stack = rw (eq_refl id) refl

-- After spans that are properly nested, as those of one request are, the active spans and the stack
-- are what they were before them, if each id is drawn for one span alone.
pub trace_all-restores :
    (spans : Spans) (service : TracingService)
    → AreFresh spans service
    → ((trace_all spans service).active_spans ≡ service.active_spans)
      × ((trace_all spans service).span_stack ≡ service.span_stack)
unfolding trace_all start_span end_span
trace_all-restores done service fresh = (refl, refl)
trace_all-restores (spanned span body finish rest) service (fresh, fresh_body, fresh_rest) =
    let inner = trace_all-restores body (start_span span service) fresh_body in
    let after =
      trace_all-restores rest
        (end_span span.span_id finish (trace_all body (start_span span service))) fresh_rest in
    (
      after.0
          ∙ ap (remove span.span_id) inner.0
          ∙ remove-insert span.span_id span service.active_spans fresh,
      after.1 ∙ ap (pop_if span.span_id) inner.1 ∙ top_popped span.span_id service.span_stack,
    )
