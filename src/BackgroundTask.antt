-- ===== src/BackgroundTask.antt =====
-- background_task.cc: the worker thread that runs jobs in the background. A job is a number here:
-- what it does is the business of who schedules it. The steps are the sections under the mutex and
-- the call of a job, in any interleaving with the threads that schedule and wait.
pub mod Completion
use xiaozhi_pc.Base.{
  ℕ, ◌+◌, ◌-◌, Bool, true, false, ◌&&◌, Option, none, some, List, [], ◌∷◌, ◌++◌, ◌==◌, ◌≡◌, ◌≢◌,
}

pub record BackgroundTask : Type 0 where
  pub main_tasks : List ℕ
  -- `tasks` of `BackgroundTaskLoop` that are not called yet, and the one whose counter is not
  -- decremented yet
  pub batch : List ℕ
  pub current : Option ℕ
  pub active_tasks : ℕ
  -- what was scheduled and what was called, in order
  pub scheduled : List ℕ
  pub called : List ℕ
  -- `~BackgroundTask` has run
  pub destroyed : Bool

abbrev pub is_empty {ℓ} : {A : Type ℓ} → List A → Bool
is_empty [] = true
is_empty (x ∷ xs) = false

-- The predicate that `WaitForCompletion` waits for.
abbrev pub is_complete : BackgroundTask → Bool
is_complete b = is_empty b.main_tasks && b.active_tasks == 0

abbrev pub initial : BackgroundTask
initial = record {
  main_tasks = [];
  batch = [];
  current = none;
  active_tasks = 0;
  scheduled = [];
  called = [];
  destroyed = false;
}

-- `Schedule`
unfoldable pub schedule : ℕ → BackgroundTask → BackgroundTask
schedule j b = record b {
  main_tasks = b.main_tasks ++ (j ∷ []);
  active_tasks = b.active_tasks + 1;
  scheduled = b.scheduled ++ (j ∷ []);
}

-- The loop takes the list, when it is not empty and the last batch is done.
unfoldable pub take_batch : BackgroundTask → BackgroundTask
take_batch b = record b { batch = b.main_tasks; main_tasks = [] }

-- The callback `cb()` of the wrapper.
unfoldable pub call : ℕ → List ℕ → BackgroundTask → BackgroundTask
call j rest b = record b { batch = rest; current = some j; called = b.called ++ (j ∷ []) }

-- The second half of the wrapper.
unfoldable pub finish : BackgroundTask → BackgroundTask
finish b = record b { current = none; active_tasks = b.active_tasks - 1 }

-- The destructor: `vTaskDelete` of porting/freertos/task.cc does nothing, so that the worker goes on,
-- on an object that is gone.
unfoldable pub destroy : BackgroundTask → BackgroundTask
destroy b = record b { destroyed = true }

-- The flag says whether the step calls `notify_all`.
pub data Step (b : BackgroundTask) : Bool → BackgroundTask → Type 0 where
  schedules : (j : ℕ) → b.destroyed ≡ false → Step b true (schedule j b)
  destroys : b.destroyed ≡ false → Step b false (destroy b)
  takes : b.batch ≡ [] → b.current ≡ none → b.main_tasks ≢ [] → Step b false (take_batch b)
  calls :
      (j : ℕ) (rest : List ℕ) → b.batch ≡ j ∷ rest → b.current ≡ none → Step b false (call j rest b)
  finishes : (j : ℕ) → b.current ≡ some j → Step b (is_complete (finish b)) (finish b)

pub data Reach (b : BackgroundTask) : BackgroundTask → Type 0 where
  here : Reach b b
  next : {c d : BackgroundTask} {n : Bool} → Reach b c → Step c n d → Reach b d
