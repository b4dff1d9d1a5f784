-- ===== src/Application/Execution.antt =====
-- internal/application/runner.go and pkg/execution/contracts.go: a runtime that executes a task, and
-- what the runner makes of its result.
use veto.Shared.{
  String, Bool, true, false, not, ◌&&◌, ◌||◌, Option, none, some, List, [], ◌∷◌, map, if◌then◌else◌,
}
use veto.Shared.Int.{ℤ, pos, is_positive}
use veto.Shared.Float.{Float64, fzero}
use veto.Shared.Text.{◌==◌, concat}
use veto.Router.Types.{ModelCapabilities, ExecutionMetrics}
use veto.Router.Executors.{Usage}
use veto.Router.Measurement.{milliseconds}
use veto.Router.Routing.{RouteError}

-- Result
pub record ExecutionResult (F : Type 0) : Type 0 where
  pub output : String
  pub error : Option String
  pub usage : Usage
  pub cost_usd : F
  pub cost_known : Bool
  pub finish_reason : String
  pub truncated : Bool

pub data RuntimeEventKind : Type 0 where
  tool_started tool_completed tool_error approval_requested approval_granted : RuntimeEventKind
  approval_denied artifact_created : RuntimeEventKind

pub record RuntimeEvent : Type 0 where
  pub kind : RuntimeEventKind
  pub name : String
  pub status : String
  pub count : ℤ

-- What a runtime gives back while it runs: a text to the writer, or an event.
pub data Chunk : Type 0 where
  text : String → Chunk
  reported : RuntimeEvent → Chunk

-- A runtime, `none` for an interface that it lacks. `W` is the state of the world; an executor is
-- given the prompt and the output budget. Every RuntimeAdapter has tools and an executor of tasks, so
-- `none` in those two fields is what the source tests for although its types rule it out.
pub record Runtime (F W : Type 0) : Type 0 where
  pub effective_tools_known : Option Bool
  pub effective_tools : Option (List String)
  pub execute_with_events : Option (String → ℤ → W → W × (ExecutionResult F × List Chunk))
  pub stream : Option (String → W → W × (Option String × List String))
  pub execute : Option (String → ℤ → W → W × ExecutionResult F)

pub data ContextError : Type 0 where
  deadline_exceeded canceled : ContextError

-- The errors of a run.
pub data RunError : Type 0 where
  nil_router nil_runtime : RunError
  route_failed : RouteError → RunError
  no_executor : String → RunError
  not_supported : String → RunError
  runtime_failed : String → RunError
  truncated_output : String → RunError

-- EffectiveMaxOutputTokens
unfoldable pub effective_max_output_tokens : ℤ → ℤ
effective_max_output_tokens budget = if is_positive budget then budget else pos 8192

-- IsTextOnlyRuntime
unfoldable pub is_text_only_runtime : {F W : Type 0} → Runtime F W → Bool
is_text_only_runtime runtime =
    let without_tools : Bool = elim runtime.effective_tools [
      | none ↦ true
      | some tools ↦ elim tools [ [] ↦ true | tool ∷ rest ↦ false ]
    ] in
    elim runtime.effective_tools_known [
      | none ↦ without_tools
      | some known ↦ if known then without_tools else false
    ]

-- ExecutionStatus
unfoldable pub execution_status : Option ContextError → String → String
execution_status none fallback = fallback
execution_status (some deadline_exceeded) fallback = "timeout"
execution_status (some canceled) fallback = "canceled"

-- The texts that go to the writer, in order
unfoldable pub written : List Chunk → String
written [] = ""
written (text t ∷ chunks) = concat t (written chunks)
written (reported e ∷ chunks) = written chunks

module _ {F : Type 0} where
  -- ValidateExecutionResult
  unfoldable pub validate_execution_result : ExecutionResult F → Option RunError
  validate_execution_result result = elim result.error [
    | some e ↦ some (runtime_failed e)
    | none ↦
        if result.truncated
        then some (
            truncated_output (
              if result.finish_reason == "" then "provider output limit" else result.finish_reason))
        else none
  ]

-- What Execute does with a runtime, up to its result.
pub record Performed (F : Type 0) : Type 0 where
  pub result : ExecutionResult F
  pub output : String
  pub streamed : Bool
  pub chunks : List Chunk

module _ {F : Type 0} ⦃fl : Float64 F⦄ where
  abbrev pub no_result : ExecutionResult F
  no_result = record {
    output = "";
    error = none;
    usage = record {
      input_tokens = pos 0;
      cached_input_tokens = pos 0;
      cached_input_known = false;
      output_tokens = pos 0;
      total_tokens = pos 0;
      known = false;
    };
    cost_usd = fzero;
    cost_known = false;
    finish_reason = "";
    truncated = false;
  }

  -- tokens / 1000 * price
  abbrev price_of : ℤ → F → F
  price_of tokens price = fl.mul (fl.div (fl.of_int tokens) (fl.lit 1000 0)) price

  -- ExecutionMetrics
  unfoldable pub execution_metrics :
      ModelCapabilities F → ExecutionResult F → ℤ → String → ExecutionMetrics F
  unfolding milliseconds
  execution_metrics model result elapsed status =
      let estimated =
        result.usage.known
        && not model.cost_per_1k_input_unknown
        && not model.cost_per_1k_output_unknown in
      record {
        status = status;
        score = fzero;
        score_known = false;
        input_tokens = result.usage.input_tokens;
        cached_input_tokens = result.usage.cached_input_tokens;
        cached_input_known = result.usage.cached_input_known;
        output_tokens = result.usage.output_tokens;
        total_tokens = result.usage.total_tokens;
        usage_known = result.usage.known;
        cost_usd =
            if result.cost_known
            then result.cost_usd
            else if estimated
            then fl.add (price_of result.usage.input_tokens model.cost_per_1k_input_usd)
                (price_of result.usage.output_tokens model.cost_per_1k_output_usd)
            else fzero;
        cost_known = result.cost_known || estimated;
        latency_ms = milliseconds elapsed;
        latency_known = true;
      }

  -- The switch of Execute: an event executor, or a streamer for a writer, or an executor. `none` is
  -- the default case.
  unfoldable pub perform_task :
      {W : Type 0} → Runtime F W → String → ℤ → W → Option (W × Performed F)
  perform_task runtime prompt budget w = elim runtime.execute [
    | none ↦ none
    | some run ↦
        let (w', result) = run prompt budget w in
        some (w', record { result = result; output = result.output; streamed = false; chunks = [] })
  ]

  unfoldable pub perform_stream :
      {W : Type 0} → Bool → Runtime F W → String → ℤ → W → Option (W × Performed F)
  unfolding perform_task written
  perform_stream has_writer runtime prompt budget w = elim runtime.stream [
    | none ↦ perform_task runtime prompt budget w
    | some run ↦
        let (w', (err, texts)) = run prompt w in
        let streamed : Performed F = record {
          result = record no_result { error = err };
          output = written (map text texts);
          streamed = true;
          chunks = map text texts;
        } in
        if has_writer then some (w', streamed) else perform_task runtime prompt budget w
  ]

  unfoldable pub perform :
      {W : Type 0} → Bool → Runtime F W → String → ℤ → W → Option (W × Performed F)
  unfolding perform_stream written
  perform has_writer runtime prompt budget w = elim runtime.execute_with_events [
    | none ↦ perform_stream has_writer runtime prompt budget w
    | some run ↦
        let (w', (result, chunks)) = run prompt budget w in
        some (
          w',
          record {
            result = result;
            output = if result.output == "" then written chunks else result.output;
            streamed = has_writer;
            chunks = chunks;
          },
        )
  ]
