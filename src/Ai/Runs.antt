-- ===== src/Ai/Runs.antt =====
-- What a run of a task ends with, and what it costs.
use vethealth_backend.Base.{
  ℕ, zero, suc, ◌+◌, ◌≤◌, ◌≡◌, refl, ◌≢◌, ◌⊎◌, inl, inr, not, ◌&&◌, Option, none, some, List, [],
  ◌++◌, Text, arith, Bool-cases, Option-cases, if◌then◌else◌,
}
use mathlib.Core.Option.{some-injective}
use vethealth_backend.Ai.{Value, Mapping, kind_of, to_http_exception}
use vethealth_backend.Ai.Registry.{AiConfig, ModelAddress, language_model}
use vethealth_backend.Ai.Replies.{status_of, to_http_exception-status}
use vethealth_backend.Ai.Service.{
  AiTask, Request, Generated, object, failed, Outcome, draft, raised, exhausted, ok, exception, Sdk,
  is_no_object, schema_note, warnings_of, request_of, correction_of, accepts, caught, loop,
  not_available, run,
}

module _ {X I O W : Type 0} (sdk : Sdk X O W) (task : AiTask X I O) where
  -- One more round of the loop, by what the call gives.
  loop_object :
      (fuel attempt : ℕ) (model : ModelAddress) (prompt correction : Text)
      (previous : Option (O × List Text)) (w w' : W) (o : O)
      → sdk.generate_object (request_of sdk task model (prompt ++ correction)) w ≡ (object o, w')
      → loop sdk task (suc fuel) attempt model prompt correction previous w ≡ (
          if accepts sdk task attempt o
          then (draft o (warnings_of task o), w')
          else loop sdk task fuel
              (suc attempt)
              model
              prompt
              (correction_of sdk task o)
              (some (o, warnings_of task o))
              w')
  unfolding loop
  loop_object fuel attempt model prompt correction previous w w' o e = rw e refl

  loop_failed :
      (fuel attempt : ℕ) (model : ModelAddress) (prompt correction : Text)
      (previous : Option (O × List Text)) (w w' : W) (v : Value)
      → sdk.generate_object (request_of sdk task model (prompt ++ correction)) w ≡ (failed v, w')
      → loop sdk task (suc fuel) attempt model prompt correction previous w
        ≡ caught sdk task attempt previous v (loop sdk task fuel (suc attempt) model prompt) w'
  unfolding loop
  loop_failed fuel attempt model prompt correction previous w w' v e = rw e refl

  Generated-cases :
      (g : Generated O × W)
      → ((o : O) × (w : W) × (g ≡ (object o, w))) ⊎ ((v : Value) × (w : W) × (g ≡ (failed v, w)))
  Generated-cases (object o, w) = inl (o, w, refl)
  Generated-cases (failed v, w) = inr (v, w, refl)

  Outcome-cases :
      (r : Outcome O × W)
      → ((o : O) × (ws : List Text) × (w : W) × (r ≡ (draft o ws, w)))
        ⊎ (((v : Value) × (w : W) × (r ≡ (raised v, w))) ⊎ ((w : W) × (r ≡ (exhausted, w))))
  Outcome-cases (draft o ws, w) = inl (o, ws, w, refl)
  Outcome-cases (raised v, w) = inr (inl (v, w, refl))
  Outcome-cases (exhausted, w) = inr (inr (w, refl))

  -- The last round ends with a draft or an error, and a draft that came before is not lost.
  last_round :
      (model : ModelAddress) (prompt correction : Text) (previous : Option (O × List Text)) (w : W)
      → ((o : O) × (ws : List Text) × ((loop sdk task 1 1 model prompt correction previous w).0
            ≡ draft o ws)
          × ((ws ≡ warnings_of task o) ⊎ (previous ≡ some (o, ws))))
        ⊎ ((previous ≡ none)
            × (v : Value) × ((loop sdk task 1 1 model prompt correction previous w).0 ≡ raised v))
  last_round model prompt correction previous w =
      elim (Generated-cases
        (sdk.generate_object (request_of sdk task model (prompt ++ correction)) w)) [
          | inl (o, w', e) ↦ inl (
            o,
            warnings_of task o,
            ground (arith, loop_object 0 1 model prompt correction previous w w' o e),
            inl refl,
          )
          | inr (v, w', e) ↦ elim (Option-cases previous) [
            | inl f ↦
                inr
                  (f, v, ground (arith, loop_failed 0 1 model prompt correction previous w w' v e))
            | inr ((o, ws), f) ↦ inl (
              o,
              ws,
              ground (arith, loop_failed 0 1 model prompt correction previous w w' v e),
              inr f,
            )
          ]
        ]

  -- What a run of the loop is good for: a draft with its own warnings, or an error where the first
  -- call gave no object.
  abbrev pub IsResult : ModelAddress → Text → W → Outcome O → Type 0
  IsResult model prompt w result =
      ((o : O) × (result ≡ draft o (warnings_of task o)))
      ⊎ ((v : Value) × (result ≡ raised v)
          × ((o : O)
              → (sdk.generate_object (request_of sdk task model (prompt ++ [])) w).0 ≢ object o))

  after_object :
      (model : ModelAddress) (prompt correction : Text) (w : W) (o : O)
      → (o' : O) × ((loop sdk task 1 1 model prompt correction (some (o, warnings_of task o)) w).0
          ≡ draft o' (warnings_of task o'))
  after_object model prompt correction w o =
      elim (last_round model prompt correction (some (o, warnings_of task o)) w) [
        | inl (o', ws, e, inl f) ↦ (o', ground arith)
        | inl (o', ws, e, inr f) ↦
            (o', ground (arith, some-injective (o, warnings_of task o) (o', ws) f))
        | inr (f, v, e) ↦ absurd (ground arith)
      ]

  after_failure :
      (model : ModelAddress) (prompt correction : Text) (w : W)
      → ((o : O) × ((loop sdk task 1 1 model prompt correction none w).0
            ≡ draft o (warnings_of task o)))
        ⊎ ((v : Value) × ((loop sdk task 1 1 model prompt correction none w).0 ≡ raised v))
  after_failure model prompt correction w = elim (last_round model prompt correction none w) [
    | inl (o, ws, e, inl f) ↦ inl (o, ground arith)
    | inl (o, ws, e, inr f) ↦ absurd (ground arith)
    | inr (f, v, e) ↦ inr (v, e)
  ]

  loop-IsResult :
      (model : ModelAddress) (prompt : Text) (w : W)
      → IsResult model prompt w (loop sdk task 2 0 model prompt [] none w).0
  loop-IsResult model prompt w =
      elim (Generated-cases (sdk.generate_object (request_of sdk task model (prompt ++ [])) w)) [
        | inl (o, w', e) ↦ elim (Bool-cases (accepts sdk task 0 o)) [
          | inl h ↦ inl (o, ground (arith, loop_object 1 0 model prompt [] none w w' o e))
          | inr h ↦
              let (o', f) = after_object model prompt (correction_of sdk task o) w' o in
              inl (o', ground (arith, loop_object 1 0 model prompt [] none w w' o e))
        ]
        | inr (v, w', e) ↦
            elim (Bool-cases (is_no_object (kind_of (sdk.heap w') v) && not (sdk.aborted w'))) [
              | inr h ↦ inr (
                v,
                ground (arith, loop_failed 1 0 model prompt [] none w w' v e),
                λ o f. ground arith,
              )
              | inl h ↦ elim (after_failure model prompt schema_note w') [
                | inl (o, f) ↦
                    inl (o, ground (arith, loop_failed 1 0 model prompt [] none w w' v e))
                | inr (u, f) ↦ inr (
                  u,
                  ground (arith, loop_failed 1 0 model prompt [] none w w' v e),
                  λ o g. ground arith,
                )
              ]
            ]
      ]

  module _ (count : W → ℕ)
      (each : (r : Request X) (w : W) → count (sdk.generate_object r w).1 ≡ suc (count w)) where
    loop_count :
        (fuel attempt : ℕ) (model : ModelAddress) (prompt correction : Text)
        (previous : Option (O × List Text)) (w : W)
        → count (loop sdk task fuel attempt model prompt correction previous w).1 ≤ count w + fuel
    unfolding loop
    loop_count zero attempt model prompt correction previous w = omega arith
    loop_count (suc fuel) attempt model prompt correction previous w =
        elim (Generated-cases
          (sdk.generate_object (request_of sdk task model (prompt ++ correction)) w)) [
            | inl (o, w', e) ↦ ground (
              arith,
              each (request_of sdk task model (prompt ++ correction)) w,
              loop_object fuel attempt model prompt correction previous w w' o e,
              loop_count fuel (suc attempt) model prompt (correction_of sdk task o)
                  (some (o, warnings_of task o)) w',
            )
            | inr (v, w', e) ↦ elim (Option-cases previous) [
              | inl f ↦ ground (
                arith,
                each (request_of sdk task model (prompt ++ correction)) w,
                loop_failed fuel attempt model prompt correction previous w w' v e,
                loop_count fuel (suc attempt) model prompt schema_note none w',
              )
              | inr (d, f) ↦ ground (
                arith,
                each (request_of sdk task model (prompt ++ correction)) w,
                loop_failed fuel attempt model prompt correction previous w w' v e,
              )
            ]
          ]

    -- A run calls the provider at most twice.
    pub run_count :
        (config : AiConfig) (input : I) (w : W)
        → count (run sdk task config input w).1 ≤ count w + 2
    unfolding run
    run_count config input w = elim (Option-cases (language_model config task.model)) [
      | inl f ↦ ground arith
      | inr (model, f) ↦
          let l = loop_count 2 0 model (task.build_prompt input) [] none w in
          elim (Outcome-cases (loop sdk task 2 0 model (task.build_prompt input) [] none w)) [
            | inl (o, ws, w', e) ↦ ground arith
            | inr (inl (v, w', e)) ↦ ground arith
            | inr (inr (w', e)) ↦ ground arith
          ]
    ]

  -- Every run ends: with an object and the warnings that are its own, or with an exception whose
  -- status is the one that is documented for its code.
  pub run_total :
      (config : AiConfig) (input : I) (w : W)
      → ((o : O) × ((run sdk task config input w).0 ≡ ok o (warnings_of task o)))
        ⊎ ((m : Mapping) × ((run sdk task config input w).0 ≡ exception m)
            × (m.status ≡ status_of m.error_code))
  unfolding run
  run_total config input w = elim (Option-cases (language_model config task.model)) [
    | inl f ↦ inr (not_available sdk task, ground arith, refl)
    | inr (model, f) ↦ elim (loop-IsResult model (task.build_prompt input) w) [
      | inl (o, e) ↦ inl (o, ground arith)
      | inr (v, e, g) ↦ inr (
        to_http_exception (sdk.heap (loop sdk task 2 0 model (task.build_prompt input) [] none w).1)
            v,
        ground arith,
        to_http_exception-status _ v,
      )
    ]
  ]

  -- Once the first call gives an object, the run gives one, whatever becomes of the second call.
  pub run_kept :
      (config : AiConfig) (input : I) (w : W) (model : ModelAddress) (o : O)
      → language_model config task.model ≡ some model
      → (sdk.generate_object (request_of sdk task model (task.build_prompt input ++ [])) w).0
        ≡ object o
      → (o' : O) × ((run sdk task config input w).0 ≡ ok o' (warnings_of task o'))
  unfolding run
  run_kept config input w model o f g = elim (loop-IsResult model (task.build_prompt input) w) [
    | inl (o', e) ↦ (o', ground arith)
    | inr (v, e, h) ↦ absurd (h o g)
  ]
