-- ===== src/Lib.antt =====
-- A model of veto, the router that asks language models whether they take a task and sends it to
-- one that does, with the theorems that its parts rest on.
--
-- The routing core is pkg/router. A manager (manager.go) takes a task and the registry's models
-- (registry.go), drops the models that the runtime and provider filters, the user's preferences
-- (preferences.go), the hard filter (filter.go) and the preflight of execution options
-- (admission.go) rule out, ranks the rest (scorer.go) by the history of the store (store.go), and
-- hands at most three candidates to a decision engine (decision.go). The default engine
-- (sequential.go) asks one model after the other through the admission gate (admission.go). The
-- manager checks the engine's outcome before it trusts it. pkg/dispatch is the fixed policy that
-- picks a native agent without any model call. pkg/shadow evaluates recorded decisions of a second
-- strategy that has no influence on routes: pkg/router/shadow.go lets it observe, and
-- internal/adapter/shadowhistory keeps what it records in a file. internal/application runs a task
-- on the routed model's runtime, and has another model review the output; its control service runs
-- actions for the terminal interface.
--
-- Which file models which part:
--
--   Router/Types: pkg/router/types.go, the records with the source's fields.
--   Router/Complexity, Router/Kind: complexity.go, kind.go, executable.go, by keywords.
--   Router/Filter: filter.go; passes_hard_filter is the body of HardFilter's loop. Filter/Capable
--       says what a capable model is.
--   Router/Preferences: preferences.go; Router/Scorer: scorer.go; Router/Registry: registry.go and
--       source.go; Registry/Lookup is on lookup in the built registries.
--   Router/Decision: decision.go; Decision/Requests and Decision/Measured describe what its checks
--       accept.
--   Router/Prompt, Router/Executors, Router/Measurement, Router/Admission: admission.go and
--       pkg/execution/contracts.go; ask_with_timeout_measured is AskWithTimeoutMeasured, split
--       into the call, the cleaning of its telemetry (measured) and the judgement of its answer
--       (judge, check_policy).
--   Router/Telemetry: mergeDecisionTelemetry and addNonnegativeInt of sequential.go.
--   Router/Sequential: SequentialAdmissionEngine.Decide; round is the loop's body, Progress what
--       it carries. Sequential/Selection describes the engine in a few lines.
--   Router/Events: events.go; an Effect is an event for the handler or a log line for the store,
--       in order.
--   Router/Shortlist and Router/Routing: route of manager.go, up to the candidates and from them
--       on. route takes any function as its engine.
--   Router/ShadowRoutes: rememberShadowRoute, takeShadowRoute, and the cache of recordExecution
--       and RecordReviewForDecision in manager.go; the labels of shadow.go.
--   Router/Stats, Router/Store: MemoryStore of store.go, its aggregates and its operations;
--       Store/History describes it by its event log.
--   Router/ShadowRecords, Router/Shadowing: the records and ShadowingDecisionEngine of shadow.go.
--       decide_shadowing is Decide, record_observation is its record; Shadowing/Bounds and
--       Shadowing/Offered are on the keys of its candidates, Shadowing/Decisions on sequences of
--       decisions.
--   Dispatch/Agents, Dispatch/Policy and Dispatch/Availability: pkg/dispatch/policy.go (its types
--       and tests on one agent, its Decide) and availability.go; Agents/Distinct is on the lists
--       of a decision.
--   Shadow/Records, Shadow/Report, Shadow/Calibration, Shadow/Readiness, Shadow/Promotion,
--       Shadow/Evaluate: pkg/shadow/evidence.go (the records), report.go (Evaluate, its loop and
--       sampleMetrics) and readiness.go (the gates and their verdict).
--   Shadow/Evidence: the validation of evidence.go. Shadow/Replay: Materialize of jsonl.go, which
--       Replay/Latest describes without its state. Shadow/Stream: Append and Load of jsonl.go;
--       Stream/Keys has the JSON of an event with the keys of its struct tags.
--   Application/Prompt, Application/Execution, Application/Runner: internal/application/runner.go;
--       execute is Execute, cut at the choice of the runtime (run_on) and at its result (finish).
--       Application/Ports has its types, Runner/Given and Runner/Recorded describe an execution
--       apart from its code. Application/Review: review.go.
--   Application/Monitor, Application/Arguments, Application/Control:
--       internal/application/controlplane_service.go; execute_action is Execute, with its cases in
--       Control/Running and Control/Executing, and observe_calls is what its hooks make of the
--       calls of a run.
--   VerifiedRun: pkg/verifiedrun/verifiedrun.go; VerifiedRun/Complete says what accepted evidence
--       is.
--   Adapter/ShadowHistory: internal/adapter/shadowhistory/file.go.
--   Shared: lists, numbers, maps, texts, sorting and orders. Tests: concrete inputs.
--
-- Go's float64 is a type F with an instance of Float64, and the theorems that compare or add
-- numbers take the laws of IEEE 754 that they need (IsIeee) as a hypothesis; Tests/Numbers has a
-- type with infinities and NaN that satisfies them. An int is an integer. Where the code checks for
-- overflow, against 2^63 - 1, the sums and differences of the model wrap around in 64 bits (wrap of
-- Shared/Int); other sums of ints, such as the score of InferComplexity, stay far below it. A text
-- is a list of code points, so bytes that are no UTF-8 are left out; Go's tables for lower case and
-- for case folding are an instance of Unicode. slices.SortFunc and sort.Slice are an insertion
-- sort, which is stable: it can differ from Go only in the order of elements that the comparison
-- does not tell apart.
--
-- What lies outside is a parameter of the model: a type W of states of the world, and in
-- Environment the executors, each a function on W, the monotonic clock, the error of the context
-- and the JSON decoder. A prompt is the record of the values that its format puts in. The theorems
-- on telemetry assume that the clock does not go backwards over a call of a registered executor. An
-- executor factory that answers with a nil executor, and a panic inside an executor, are not
-- modelled. Error texts are not modelled: each place that makes an error has a constructor. The
-- evaluation takes math.Sqrt, math.Abs and the conversion of a float64 to an int as an instance of
-- FloatMath, with the range of int(10 x) as a named law. Maps are association lists; the loop over
-- the map of gates is given its entries in any order. The shadow runs beside the authority in a
-- goroutine; what Decide receives of it in the end, an answer or the error of its context, is a
-- parameter (observed), and so are HMAC (Keys), the random route ids and SHA-256. The JSON encoder
-- and decoder of shadow evidence are a parameter (Codec), with the round trip of a value as a named
-- law, and so is the JSON decoder of a review. The calls of the operating system that fail are an
-- input of the recorder (Fault). An action of the control plane is one step; its callbacks are
-- parameters, and so are the parsers of durations and numbers (Parsers). The decoder of the
-- manifests of a verified run is a parameter too, and so is ledger.Redact. A runtime gives back the
-- texts and events of a run as a list, in order. A mutex makes an operation one step, so an
-- interleaving of goroutines is a list of operations.
--
-- No recursion needs fuel: every loop of the modelled code runs over a list, and each function is
-- structural on it. The printing of a number has one digit of fuel more than the number itself, so
-- it never runs out. The limits that the code sets, three candidates and calls, 32 route ids, 256
-- cached metrics and 256 routes with candidate keys, are proved as bounds or shown to cut nothing
-- off.
--
-- Not modelled: the private witness and capture of a route (private_witness.go and their part of
-- shadow.go), the setters of Manager, the recording of shadow routes by route itself, Snapshot,
-- Cancel and the ends of subscriptions of the control plane
-- (internal/application/controlplane_service.go) and its catalog
-- (internal/controlplane/catalog.go), and the other packages around the router: pkg/executor,
-- pkg/ledger, pkg/opencode, pkg/openroutercatalog, internal/eval, internal/tui, the other adapters
-- and cmd. Much of the latter is input and output.
mod Shared
pub mod Router
pub mod Dispatch
pub mod Shadow
pub mod Application
pub mod VerifiedRun
pub mod Adapter
mod Tests
