-- ===== src/Tasks/Isolated/Steps.antt =====
-- One access, and a whole run, of a task that has its device for itself.
use alarms_actions_synchroni.Prelude.{
  String, Bool-cases, Option, none, some, ◌≡◌, ◌≢◌, refl, ◌∙◌, inl, inr, ◌==◌, length, string_eq,
}
use alarms_actions_synchroni.Prelude.HashMap.{get, get-insert_self}
use alarms_actions_synchroni.Models.Proto.{State, state_eq}
use alarms_actions_synchroni.Models.Cache.{
  CachedState, record_alarm_state, record_startup_state_evidence, is_some_and,
}
use alarms_actions_synchroni.Models.Metadata.{update_cached_metadata}
use alarms_actions_synchroni.Models.Phoebus.{PvMetadata}
use alarms_actions_synchroni.World.{World, Env}
use alarms_actions_synchroni.Tasks.{
  Task, returned, panicked, read_state, read_scope, write_state, write_evidence, write_scope, send,
  post, step, run_alone,
}
use alarms_actions_synchroni.Tasks.Isolated.{Entry, entry, with_evidence, Uses, Isolated}
use alarms_actions_synchroni.System.Invariants.{get-insert_other}

-- What a run leaves, if it does not panic, and that it does not.
abbrev pub Kept : {V A : Type 0} → String → Entry V → Option (A × World V) → Type 0
Kept d e none = Unit
Kept d e (some (a, w)) = entry d w ≡ e

abbrev pub Ends : {V A : Type 0} → (A → World V → Type 0) → Option (A × World V) → Type 0
Ends Q none = ⊥
Ends Q (some (a, w)) = Q a w

module _ {V : Type 0} (d : String) (w : World V) where
  entry_after_state :
      (e : String) (state : CachedState)
      → e ≡ d
      → entry d (record w { alarm_states = record_alarm_state w.alarm_states e state })
        ≡ (some state, get d w.metadata_scope)
  unfolding record_alarm_state
  entry_after_state e state same = rw (same, get-insert_self) refl

  entry_after_evidence :
      (e : String) (state : CachedState)
      → e ≡ d
      → entry d (record w { alarm_states = record_startup_state_evidence w.alarm_states e state })
        ≡ with_evidence state (entry d w)
  unfolding record_startup_state_evidence
  entry_after_evidence e state same =
      elim (Bool-cases
        (is_some_and (get d w.alarm_states) (λ existing. existing.state == State.bypassed))) [
          | inl bypass ↦ rw (same, bypass) refl
          | inr free ↦ rw (same, free, get-insert_self) refl
        ]

  entry_after_scope :
      (e : String) (metadata : PvMetadata V)
      → e ≡ d
      → entry d (record w { metadata_scope = update_cached_metadata w.metadata_scope e metadata })
        ≡ (get d w.alarm_states, some metadata)
  unfolding update_cached_metadata
  entry_after_scope e metadata same = rw (same, get-insert_self) refl

  -- A write about another device.
  entry_of_other_state :
      (e : String) (state : CachedState)
      → d ≢ e
      → entry d (record w { alarm_states = record_alarm_state w.alarm_states e state }) ≡ entry d w
  unfolding record_alarm_state
  entry_of_other_state e state other = rw (get-insert_other e d state w.alarm_states other) refl

  entry_of_other_evidence :
      (e : String) (state : CachedState)
      → d ≢ e
      → entry d (record w { alarm_states = record_startup_state_evidence w.alarm_states e state })
        ≡ entry d w
  unfolding record_startup_state_evidence
  entry_of_other_evidence e state other =
      elim (Bool-cases
        (is_some_and (get e w.alarm_states) (λ existing. existing.state == State.bypassed))) [
          | inl bypass ↦ rw bypass refl
          | inr free ↦ rw (free, get-insert_other e d state w.alarm_states other) refl
        ]

  entry_of_other_scope :
      (e : String) (metadata : PvMetadata V)
      → d ≢ e
      → entry d (record w { metadata_scope = update_cached_metadata w.metadata_scope e metadata })
        ≡ entry d w
  unfolding update_cached_metadata
  entry_of_other_scope e metadata other =
      rw (get-insert_other e d metadata w.metadata_scope other) refl

module _ {V D : Type 0} (env : Env V D) {A : Type 0} where
  pub Uses-step :
      (P : String → Type 0) (task : Task V A) (w : World V)
      → Uses P task
      → Uses P (step env task w).0
  unfolding step
  Uses-step P (returned a) w u = tt
  Uses-step P panicked w u = tt
  Uses-step P (read_state e next) w u = u.1 _
  Uses-step P (read_scope e next) w u = u.1 _
  Uses-step P (write_state e state task) w u = u.1
  Uses-step P (write_evidence e state task) w u = u.1
  Uses-step P (write_scope e metadata task) w u = u.1
  Uses-step P (send host request next) w u = u _
  Uses-step P (post publisher message next) w u = u _

  -- A task about other devices leaves the entry as it was.
  pub entry-step_other :
      (d : String) (task : Task V A) (w : World V)
      → Uses (λ e. d ≢ e) task
      → entry d (step env task w).1 ≡ entry d w
  unfolding step record_alarm_state update_cached_metadata
  entry-step_other d (returned a) w u = refl
  entry-step_other d panicked w u = refl
  entry-step_other d (read_state e next) w u = refl
  entry-step_other d (read_scope e next) w u = refl
  entry-step_other d (write_state e state task) w u = entry_of_other_state d w e state u.0
  entry-step_other d (write_evidence e state task) w u = entry_of_other_evidence d w e state u.0
  entry-step_other d (write_scope e metadata task) w u = entry_of_other_scope d w e metadata u.0
  entry-step_other d (send host request next) w u = refl
  entry-step_other d (post publisher message next) w u = refl

  -- A task about other devices, run alone.
  pub run_alone-Kept :
      (d : String) (task : Task V A) (w : World V) (e : Entry V)
      → entry d w ≡ e
      → Uses (λ f. d ≢ f) task
      → Kept d e (run_alone env task w)
  unfolding run_alone step
  run_alone-Kept d (returned a) w e same u = same
  run_alone-Kept d panicked w e same u = tt
  run_alone-Kept d (read_state f next) w e same u =
      run_alone-Kept d (next (get f w.alarm_states)) w e same (u.1 _)
  run_alone-Kept d (read_scope f next) w e same u =
      run_alone-Kept d (next (get f w.metadata_scope)) w e same (u.1 _)
  run_alone-Kept d (write_state f state task) w e same u =
      run_alone-Kept d task _ e (entry-step_other d (write_state f state task) w u ∙ same) u.1
  run_alone-Kept d (write_evidence f state task) w e same u =
      run_alone-Kept d task _ e (entry-step_other d (write_evidence f state task) w u ∙ same) u.1
  run_alone-Kept d (write_scope f metadata task) w e same u =
      run_alone-Kept d task _ e (entry-step_other d (write_scope f metadata task) w u ∙ same) u.1
  run_alone-Kept d (send host request next) w e same u =
      run_alone-Kept d (next (env.accepts (length w.sent))) _ e same (u _)
  run_alone-Kept d (post publisher message next) w e same u =
      run_alone-Kept d (next (env.delivers (length w.published))) _ e same (u _)

  -- An access of the task that has the device for itself.
  pub Isolated-step :
      (d : String) (Q : A → Entry V → Type 0) (task : Task V A) (w : World V)
      → Isolated d Q (entry d w) task
      → Isolated d Q (entry d (step env task w).1) (step env task w).0
  unfolding step
  Isolated-step d Q (returned a) w i = i
  Isolated-step d Q panicked w i = i
  Isolated-step d Q (read_state e next) w (inl (same, i)) = rw same i
  Isolated-step d Q (read_state e next) w (inr (other, i)) = i _
  Isolated-step d Q (read_scope e next) w (inl (same, i)) = rw same i
  Isolated-step d Q (read_scope e next) w (inr (other, i)) = i _
  Isolated-step d Q (write_state e state task) w (inl (same, i)) =
      rw (entry_after_state d w e state same) i
  Isolated-step d Q (write_state e state task) w (inr (other, i)) =
      rw (entry_of_other_state d w e state other) i
  Isolated-step d Q (write_evidence e state task) w (inl (same, i)) =
      rw (entry_after_evidence d w e state same) i
  Isolated-step d Q (write_evidence e state task) w (inr (other, i)) =
      rw (entry_of_other_evidence d w e state other) i
  Isolated-step d Q (write_scope e metadata task) w (inl (same, i)) =
      rw (entry_after_scope d w e metadata same) i
  Isolated-step d Q (write_scope e metadata task) w (inr (other, i)) =
      rw (entry_of_other_scope d w e metadata other) i
  Isolated-step d Q (send host request next) w i = i _
  Isolated-step d Q (post publisher message next) w i = i _

  -- The task that has the device for itself, run alone.
  pub run_alone-Ends :
      (d : String) (Q : A → Entry V → Type 0) (task : Task V A) (w : World V)
      → Isolated d Q (entry d w) task
      → Ends (λ a w'. Q a (entry d w')) (run_alone env task w)
  unfolding run_alone step
  run_alone-Ends d Q (returned a) w i = i
  run_alone-Ends d Q panicked w i = i
  run_alone-Ends d Q (read_state e next) w i =
      run_alone-Ends d Q (next (get e w.alarm_states)) w (Isolated-step d Q (read_state e next) w i)
  run_alone-Ends d Q (read_scope e next) w i =
      run_alone-Ends d Q (next (get e w.metadata_scope)) w
        (Isolated-step d Q (read_scope e next) w i)
  run_alone-Ends d Q (write_state e state task) w i =
      run_alone-Ends d Q task _ (Isolated-step d Q (write_state e state task) w i)
  run_alone-Ends d Q (write_evidence e state task) w i =
      run_alone-Ends d Q task _ (Isolated-step d Q (write_evidence e state task) w i)
  run_alone-Ends d Q (write_scope e metadata task) w i =
      run_alone-Ends d Q task _ (Isolated-step d Q (write_scope e metadata task) w i)
  run_alone-Ends d Q (send host request next) w i =
      run_alone-Ends d Q (next (env.accepts (length w.sent))) _ (i _)
  run_alone-Ends d Q (post publisher message next) w i =
      run_alone-Ends d Q (next (env.delivers (length w.published))) _ (i _)
