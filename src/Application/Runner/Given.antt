-- ===== src/Application/Runner/Given.antt =====
-- What a runtime gave back in a run, and which calls pass it on: the switch of Execute of
-- internal/application/runner.go, described apart from it.
use veto.Shared.{
  ◌≡◌, refl, ◌⊎◌, inl, inr, String, Bool, true, false, Option, none, some, List, [], ◌∷◌, map,
  if◌then◌else◌, Option-cases,
}
use veto.Shared.Int.{ℤ}
use veto.Shared.Float.{Float64}
use veto.Shared.Text.{◌==◌, eq_iff, concat}
use veto.Router.Types.{ModelCapabilities}
use veto.Application.Execution.{
  Runtime, RuntimeEvent, ExecutionResult, Chunk, text, reported, Performed, written, perform_task,
  perform_stream, perform,
}
use veto.Application.Runner.{Call, wrote, runtime_emitted, chunk_calls}

-- The text that the chunks make.
pub data Says : List Chunk → String → Type 0 where
  nothing_said : Says [] ""
  said :
      {t rest : String} {chunks : List Chunk}
      → Says chunks rest
      → Says (text t ∷ chunks) (concat t rest)
  event_between :
      {e : RuntimeEvent} {rest : String} {chunks : List Chunk}
      → Says chunks rest
      → Says (reported e ∷ chunks) rest

written-Says : (chunks : List Chunk) → Says chunks (written chunks)
unfolding written
written-Says [] = nothing_said
written-Says (text t ∷ chunks) = said (written-Says chunks)
written-Says (reported e ∷ chunks) = event_between (written-Says chunks)

-- The output of a run: that of the result, or the text of the chunks where it is empty.
abbrev pub IsOutputOf : String → List Chunk → String → Type 0
IsOutputOf own chunks output =
    ((own ≡ "") × Says chunks output) ⊎ (((own == "") ≡ false) × (output ≡ own))

output_given :
    (blank : Bool) (own : String) (chunks : List Chunk)
    → (own == "") ≡ blank
    → IsOutputOf own chunks (if blank then written chunks else own)
output_given true own chunks e = inl ((eq_iff own "").0 e, written-Says chunks)
output_given false own chunks e = inr (e, refl)

module _ {F : Type 0} ⦃fl : Float64 F⦄ where
  -- The calls that pass the chunks on: every event goes to the hook, and every text to the writer
  -- where there is one, in order.
  pub data IsPassedOn (has_writer : Bool) (task_id : String) (model : ModelCapabilities F)
      : List Chunk → List (Call F) → Type 0 where
    all_passed : IsPassedOn has_writer task_id model [] []
    event_passed :
        {e : RuntimeEvent} {chunks : List Chunk} {calls : List (Call F)}
        → IsPassedOn has_writer task_id model chunks calls
        → IsPassedOn has_writer task_id model
            (reported e ∷ chunks)
            (runtime_emitted task_id model e ∷ calls)
    text_passed :
        {t : String} {chunks : List Chunk} {calls : List (Call F)}
        → has_writer ≡ true
        → IsPassedOn has_writer task_id model chunks calls
        → IsPassedOn has_writer task_id model (text t ∷ chunks) (wrote t ∷ calls)
    text_unread :
        {t : String} {chunks : List Chunk} {calls : List (Call F)}
        → has_writer ≡ false
        → IsPassedOn has_writer task_id model chunks calls
        → IsPassedOn has_writer task_id model (text t ∷ chunks) calls

  pub chunk_calls-IsPassedOn :
      (has_writer : Bool) (id : String) (model : ModelCapabilities F) (chunks : List Chunk)
      → IsPassedOn has_writer id model chunks (chunk_calls has_writer id model chunks)
  unfolding chunk_calls
  chunk_calls-IsPassedOn has_writer id model [] = all_passed
  chunk_calls-IsPassedOn true id model (text t ∷ chunks) =
      text_passed refl (chunk_calls-IsPassedOn true id model chunks)
  chunk_calls-IsPassedOn false id model (text t ∷ chunks) =
      text_unread refl (chunk_calls-IsPassedOn false id model chunks)
  chunk_calls-IsPassedOn has_writer id model (reported e ∷ chunks) =
      event_passed (chunk_calls-IsPassedOn has_writer id model chunks)

  module _ {W : Type 0} where
    -- What a run of the runtime gave back: of its executor of events if it has one, else of its
    -- stream if there is a writer, else of its executor of tasks.
    pub data IsRun (has_writer : Bool) (runtime : Runtime F W) (prompt : String) (budget : ℤ)
        (before : W) (p : Performed F) : Type 0 where
      by_events :
          (run : String → ℤ → W → W × (ExecutionResult F × List Chunk))
          → runtime.execute_with_events ≡ some run
          → (run prompt budget before).1 ≡ (p.result, p.chunks)
          → IsOutputOf p.result.output p.chunks p.output
          → p.streamed ≡ has_writer
          → IsRun has_writer runtime prompt budget before p
      by_stream :
          (run : String → W → W × (Option String × List String)) (texts : List String)
          → runtime.execute_with_events ≡ none
          → runtime.stream ≡ some run
          → has_writer ≡ true
          → (run prompt before).1 ≡ (p.result.error, texts)
          → p.chunks ≡ map text texts
          → Says (map text texts) p.output
          → p.streamed ≡ true
          → IsRun has_writer runtime prompt budget before p
      by_task :
          (run : String → ℤ → W → W × ExecutionResult F)
          → runtime.execute_with_events ≡ none
          → (runtime.stream ≡ none) ⊎ (has_writer ≡ false)
          → runtime.execute ≡ some run
          → (run prompt budget before).1 ≡ p.result
          → p.chunks ≡ []
          → p.output ≡ p.result.output
          → p.streamed ≡ false
          → IsRun has_writer runtime prompt budget before p

    -- A run, if there was one.
    abbrev pub Runs : Bool → Runtime F W → String → ℤ → W → Option (W × Performed F) → Type 0
    Runs has_writer runtime prompt budget before none = Unit
    Runs has_writer runtime prompt budget before (some (after, p)) =
        IsRun has_writer runtime prompt budget before p

    module _ (runtime : Runtime F W) (prompt : String) (budget : ℤ) (before : W) where
      perform_task-Runs :
          (has_writer : Bool)
          → runtime.execute_with_events ≡ none
          → (runtime.stream ≡ none) ⊎ (has_writer ≡ false)
          → Runs has_writer runtime prompt budget before (perform_task runtime prompt budget before)
      unfolding perform_task
      perform_task-Runs has_writer no_events unstreamed = elim (Option-cases runtime.execute) [
        | inl e ↦ simp (e, perform_task) tt
        | inr (run, e) ↦
            simp (e, perform_task) (by_task run no_events unstreamed e refl refl refl refl)
      ]

      perform_stream-Runs :
          (has_writer : Bool)
          → runtime.execute_with_events ≡ none
          → Runs has_writer runtime prompt budget before
              (perform_stream has_writer runtime prompt budget before)
      unfolding perform_stream
      perform_stream-Runs true no_events = elim (Option-cases runtime.stream) [
        | inl e ↦ simp (e, perform_stream) (perform_task-Runs true no_events (inl e))
        | inr (run, e) ↦
            let texts = (run prompt before).1.1 in
            simp (e, perform_stream)
              (by_stream run texts no_events e refl refl refl (written-Says (map text texts)) refl)
      ]
      perform_stream-Runs false no_events = elim (Option-cases runtime.stream) [
        | inl e ↦ simp (e, perform_stream) (perform_task-Runs false no_events (inl e))
        | inr (run, e) ↦ simp (e, perform_stream) (perform_task-Runs false no_events (inr refl))
      ]

      pub perform-Runs :
          (has_writer : Bool)
          → Runs has_writer runtime prompt budget before
              (perform has_writer runtime prompt budget before)
      unfolding perform
      perform-Runs has_writer = elim (Option-cases runtime.execute_with_events) [
        | inl e ↦ simp (e, perform) (perform_stream-Runs has_writer e)
        | inr (run, e) ↦
            let (result, chunks) = (run prompt budget before).1 in
            simp (e, perform)
              (by_events run e refl (output_given (result.output == "") result.output chunks refl)
                refl)
      ]
