-- ===== src/Job/Lifecycle.antt =====
-- The states that a job of src/migration/orchestrator.c goes through.
use buckets.Prelude.{
  ℕ, ◌≡◌, refl, sym, ap, ◌∙◌, inl, inr, Bool, true, false, not, List, [], ◌∷◌, Bool-cases,
  if◌then◌else◌, length,
}
use buckets.Prelude.Int.{pos}
use buckets.Status.{Result, ok, err, invalid_arg}
use buckets.Scanner.{Task}
use buckets.Job.{
  JobState, Job, is_valid_transition, transition_state, Calls, is_idle, is_migrating, is_paused,
  is_terminal, if_ok, use_pool, launch, begin_migration, use_scan, start, pause, resume, stop,
  total_size,
}

-- A job goes from one state to another by transitions that are allowed.
pub data Leads (s : JobState) : JobState → Type 0 where
  stay : Leads s s
  go : (t u : JobState) → Leads s t → is_valid_transition t u ≡ true → Leads s u

Leads-trans : (s t u : JobState) → Leads s t → Leads t u → Leads s u
Leads-trans s t _ first stay = first
Leads-trans s t _ first (go u v rest allowed) = go u v (Leads-trans s t u first rest) allowed

no_exit : (t u : JobState) → is_terminal t ≡ true → is_valid_transition t u ≡ true → ⊥
unfolding is_valid_transition
no_exit JobState.idle u final allowed = cc
no_exit JobState.scanning u final allowed = cc
no_exit JobState.migrating u final allowed = cc
no_exit JobState.paused u final allowed = cc
no_exit JobState.completed u final allowed = cc
no_exit JobState.failed u final allowed = cc
no_exit (JobState.unknown n) u final allowed = cc

-- Nothing leads out of a state that is final.
pub terminal-stays : (s t : JobState) → is_terminal s ≡ true → Leads s t → s ≡ t
terminal-stays s _ final stay = refl
terminal-stays s _ final (go t u before allowed) =
    absurd (no_exit t u (ap is_terminal (sym (terminal-stays s t final before)) ∙ final) allowed)

transition_state-Leads : (j : Job) (to : JobState) → Leads j.state (transition_state j to).0.state
unfolding transition_state
transition_state-Leads j to = elim (Bool-cases (is_valid_transition j.state to)) [
  | inl allowed ↦ rw allowed (go j.state to stay allowed)
  | inr refused ↦ rw refused stay
]

module _ (others : ℕ → Job → Job)
    (respects : (n : ℕ) (j : Job) → Leads j.state (others n j).state) where
  others-transition :
      (n : ℕ) (j : Job) (to : JobState) → Leads j.state (transition_state (others n j) to).0.state
  others-transition n j to =
      Leads-trans j.state (others n j).state (transition_state (others n j) to).0.state
        (respects n j) (transition_state-Leads (others n j) to)

  if_ok-Leads :
      (s : JobState) (r : Job × Result (Unit {0})) (rest : Job → Job × Result (Unit {0}))
      → Leads s r.0.state
      → ((j : Job) → Leads j.state (rest j).0.state)
      → Leads s (if_ok r rest).0.state
  if_ok-Leads s (j, err e) rest first later = first
  if_ok-Leads s (j, ok u) rest first later = Leads-trans s j.state (rest j).0.state first (later j)

  use_pool-Leads :
      (started submitted : Result (Unit {0})) (j : Job)
      → Leads j.state (use_pool others started submitted j).0.state
  use_pool-Leads (err e) submitted j = others-transition 4 j JobState.failed
  use_pool-Leads (ok u) (err e) j = others-transition 4 j JobState.failed
  use_pool-Leads (ok u) (ok v) j = respects 4 j

  launch-Leads : (calls : Calls) (j : Job) → Leads j.state (launch others calls j).0.state
  unfolding launch
  launch-Leads calls j =
      let with_pool : Job = record (others 3 j) { worker_pool = true } in
      let run = use_pool others calls.pool_started calls.submitted with_pool in
      elim (Bool-cases calls.pool_created) [
        | inr none_there ↦ rw none_there (others-transition 3 j JobState.failed)
        | inl made ↦ rw made (
            Leads-trans j.state with_pool.state run.0.state (respects 3 j)
              (use_pool-Leads calls.pool_started calls.submitted with_pool))
      ]

  begin_migration-Leads :
      (calls : Calls) (tasks : List Task) (j : Job)
      → Leads j.state (begin_migration others calls tasks j).0.state
  unfolding begin_migration
  begin_migration-Leads calls [] j = others-transition 2 j JobState.completed
  begin_migration-Leads calls (task ∷ tasks) j =
      if_ok-Leads j.state (transition_state (others 2 j) JobState.migrating) (launch others calls)
        (others-transition 2 j JobState.migrating) (launch-Leads calls)

  use_scan-Leads :
      (calls : Calls) (scanned : Result (List Task)) (j : Job)
      → Leads j.state (use_scan others calls scanned j).0.state
  unfolding use_scan
  use_scan-Leads calls (err e) j = others-transition 1 j JobState.failed
  use_scan-Leads calls (ok tasks) j =
      let counted : Job = record (others 1 j) {
        total_objects = pos (length tasks);
        bytes_total = pos (total_size tasks);
      } in
      Leads-trans j.state counted.state (begin_migration others calls tasks counted).0.state
        (respects 1 j) (begin_migration-Leads calls tasks counted)

  guarded-Leads :
      (s : JobState) (b : Bool) (r r' : Job × Result (Unit {0}))
      → Leads s r.0.state
      → Leads s r'.0.state
      → Leads s (if b then r else r').0.state
  guarded-Leads s true r r' h h' = h
  guarded-Leads s false r r' h h' = h'

  -- Starting, pausing, resuming and stopping a job take its state only along transitions that are
  -- allowed, whatever the scanner and the pool answer and whatever other threads, which keep to the
  -- transitions too, do whenever the job is not locked.
  pub operations-Leads :
      (calls : Calls) (answer : Result (Unit {0})) (j : Job)
      → Leads j.state (start others calls j).0.state
        × Leads j.state (pause others answer j).0.state
        × Leads j.state (resume others answer j).0.state
        × Leads j.state (stop others j).0.state
  unfolding start pause resume stop
  operations-Leads calls answer j =
      let pool_answer : Result (Unit {0}) = if j.worker_pool then answer else ok tt in
      let to_scanning = transition_state (others 0 j) JobState.scanning in
      let scan_part : Job → Job × Result (Unit {0}) = λ scanner_job.
        use_scan others calls calls.scanned (record scanner_job {
          start_time = calls.now;
          last_checkpoint_time = calls.now;
          last_checkpoint_objects = pos 0;
          scanner = true;
        }) in
      (
        guarded-Leads j.state (not (is_idle j.state)) (j, err invalid_arg)
            (if_ok to_scanning scan_part) stay
            (if_ok-Leads j.state to_scanning scan_part (others-transition 0 j JobState.scanning)
              (λ scanner_job. use_scan-Leads calls calls.scanned (record scanner_job {
                start_time = calls.now;
                last_checkpoint_time = calls.now;
                last_checkpoint_objects = pos 0;
                scanner = true;
              }))),
        guarded-Leads j.state (not (is_migrating j.state)) (j, err invalid_arg)
            (if_ok (others 0 j, pool_answer) (λ j'. transition_state j' JobState.paused)) stay
            (if_ok-Leads j.state (others 0 j, pool_answer)
              (λ j'. transition_state j' JobState.paused) (respects 0 j)
              (λ j'. transition_state-Leads j' JobState.paused)),
        guarded-Leads j.state (not (is_paused j.state)) (j, err invalid_arg)
            (if_ok (others 0 j, pool_answer) (λ j'. transition_state j' JobState.migrating)) stay
            (if_ok-Leads j.state (others 0 j, pool_answer)
              (λ j'. transition_state j' JobState.migrating) (respects 0 j)
              (λ j'. transition_state-Leads j' JobState.migrating)),
        guarded-Leads j.state (is_terminal j.state) (j, ok tt)
            (transition_state (others 0 j) JobState.failed) stay
            (others-transition 0 j JobState.failed),
      )

  -- A job that is completed or failed stays so, whatever is called.
  pub operations-terminal :
      (calls : Calls) (answer : Result (Unit {0})) (j : Job)
      → is_terminal j.state ≡ true
      → ((start others calls j).0.state ≡ j.state)
        × ((pause others answer j).0.state ≡ j.state)
        × ((resume others answer j).0.state ≡ j.state)
        × ((stop others j).0.state ≡ j.state)
  operations-terminal calls answer j final =
      let (started, paused, resumed, stopped) = operations-Leads calls answer j in
      (
        sym (terminal-stays j.state (start others calls j).0.state final started),
        sym (terminal-stays j.state (pause others answer j).0.state final paused),
        sym (terminal-stays j.state (resume others answer j).0.state final resumed),
        sym (terminal-stays j.state (stop others j).0.state final stopped),
      )
