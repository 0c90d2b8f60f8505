-- ===== src/Observability/Tracing.antt =====
-- app/observability/tracing.py. A span object is shared by the trace that lists it and by the
-- dictionary of active spans; ending it sets its time in both, and the dictionary then forgets it, so
-- the trace is where it is updated. `uuid4` and the clock are arguments. Times are microseconds.
pub mod Nesting
use ai_risk_engine.Json.{Fields, str, int, field, end}
use ai_risk_engine.Prelude.{
  ℕ, Bool, String, Option, none, some, List, [], ◌∷◌, ◌++◌, Table, insert, remove, if◌then◌else◌,
  ◌==◌,
}
use ai_risk_engine.Prelude.Int.{ℤ, pos, ◌+ℤ◌, negate}
use ai_risk_engine.Workflow.Services.{SpanArgs}

pub record Span : Type 0 where
  pub span_id : String
  pub trace_id : String
  pub name : String
  pub parent_span_id : Option String
  pub start_time_utc : ℕ
  pub end_time_utc : Option ℕ
  pub attributes : Fields

-- `duration_ms`, in microseconds
unfoldable pub duration : Span → Option ℤ
duration span = elim span.end_time_utc [
  | none ↦ none
  | some finish ↦ some (pos finish +ℤ negate (pos span.start_time_utc))
]

pub record Trace : Type 0 where
  pub trace_id : String
  pub spans : List Span

unfoldable pub get_span : String → List Span → Option Span
get_span span_id [] = none
get_span span_id (span ∷ spans) =
    if span.span_id == span_id then some span else get_span span_id spans

-- The stack with its top first.
pub record TracingService : Type 0 where
  pub traces : List Trace
  pub active_spans : Table Span
  pub span_stack : List String

-- `TracingService.__init__`, also what `reset` leaves.
abbrev pub new : TracingService
new = record { traces = []; active_spans = []; span_stack = [] }

abbrev optional_text : String → Option String → Fields → Fields
optional_text key none rest = rest
optional_text key (some s) rest = field key (str s) rest

abbrev optional_int : String → Option ℕ → Fields → Fields
optional_int key none rest = rest
optional_int key (some n) rest = field key (int (pos n)) rest

abbrev pub attributes_of : SpanArgs → Fields
attributes_of args = optional_text "tenant_id" args.tenant_id (
    optional_text "correlation_id" args.correlation_id (
      optional_text "model_version" args.model_version
        (optional_int "prompt_version" args.prompt_version end)))

-- The first trace with the id gets the span, or else a new one.
unfoldable pub add_span : Span → List Trace → List Trace
add_span span [] = record { trace_id = span.trace_id; spans = span ∷ [] } ∷ []
add_span span (trace ∷ traces) =
    let rest = add_span span traces in
    if trace.trace_id == span.trace_id
    then record trace { spans = trace.spans ++ span ∷ [] } ∷ traces
    else trace ∷ rest

abbrev or_new : Option String → String → String
or_new none trace_id = trace_id
or_new (some trace_id) _ = trace_id

-- The span that `start_span` makes, with the ids that it draws.
abbrev pub span_of : String → SpanArgs → String → String → ℕ → Span
span_of name args span_id new_trace_id now = record {
  span_id = span_id;
  trace_id = or_new args.trace_id new_trace_id;
  name = name;
  parent_span_id = args.parent_span_id;
  start_time_utc = now;
  end_time_utc = none;
  attributes = attributes_of args;
}

-- `start_span` up to its `yield`
unfoldable pub start_span : Span → TracingService → TracingService
unfolding add_span
start_span span service = record {
  traces = add_span span service.traces;
  active_spans = insert span.span_id span service.active_spans;
  span_stack = span.span_id ∷ service.span_stack;
}

abbrev set_end : String → ℕ → List Span → List Span
set_end span_id now [] = []
set_end span_id now (span ∷ spans) =
    let rest = set_end span_id now spans in
    if span.span_id == span_id then record span { end_time_utc = some now } ∷ rest else span ∷ rest

abbrev end_in : String → ℕ → List Trace → List Trace
end_in span_id now [] = []
end_in span_id now (trace ∷ traces) =
    record trace { spans = set_end span_id now trace.spans } ∷ end_in span_id now traces

-- `if self._span_stack and self._span_stack[-1] == span_id: self._span_stack.pop()`
abbrev pub pop_if : String → List String → List String
pop_if span_id [] = []
pop_if span_id (top ∷ stack) = if top == span_id then stack else top ∷ stack

-- The `finally` of `start_span`
unfoldable pub end_span : String → ℕ → TracingService → TracingService
end_span span_id now service = record {
  traces = end_in span_id now service.traces;
  active_spans = remove span_id service.active_spans;
  span_stack = pop_if span_id service.span_stack;
}

unfoldable pub get_trace : String → List Trace → Option Trace
get_trace trace_id [] = none
get_trace trace_id (trace ∷ traces) =
    if trace.trace_id == trace_id then some trace else get_trace trace_id traces
