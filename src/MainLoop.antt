-- ===== src/MainLoop.antt =====
-- application.cc and porting/freertos/event_groups.cc: `Schedule`, which other threads call, and
-- `MainEventLoop`, which waits for the bit that `Schedule` sets. The steps are the sections under
-- `mutex_` and under the mutex of the event group, in any interleaving. A task is a number here.
pub mod Delivery
use xiaozhi_pc.Base.{ℕ, suc, ◌+◌, Bool, true, false, List, [], ◌∷◌, ◌++◌, ◌≡◌}

-- Where the loop stands: in `xEventGroupWaitBits`; behind it, with the bit cleared and the list not
-- taken yet; in the `for` over the list that it took.
pub data LoopAt : Type 0 where
  waiting woken running : LoopAt

pub record MainLoop : Type 0 where
  pub main_tasks : List ℕ
  -- SCHEDULE_EVENT is set in `event_group_`
  pub schedule_event : Bool
  -- the threads that have added a task and have not set the bit yet
  pub setting : ℕ
  pub loop_at : LoopAt
  pub tasks : List ℕ
  -- what was scheduled and what was run, in order
  pub scheduled : List ℕ
  pub ran : List ℕ

abbrev pub initial : MainLoop
initial = record {
  main_tasks = [];
  schedule_event = false;
  setting = 0;
  loop_at = waiting;
  tasks = [];
  scheduled = [];
  ran = [];
}

-- The first section of `Schedule`.
unfoldable pub push_task : ℕ → MainLoop → MainLoop
push_task t m = record m {
  main_tasks = m.main_tasks ++ (t ∷ []);
  setting = m.setting + 1;
  scheduled = m.scheduled ++ (t ∷ []);
}

-- `xEventGroupSetBits(event_group_, SCHEDULE_EVENT)`
unfoldable pub set_bit : ℕ → MainLoop → MainLoop
set_bit others m = record m { schedule_event = true; setting = others }

-- The return of `xEventGroupWaitBits`, which clears the bit.
unfoldable pub wake : MainLoop → MainLoop
wake m = record m { schedule_event = false; loop_at = woken }

-- `tasks = std::move(main_tasks_)` under `mutex_`
unfoldable pub take_tasks : MainLoop → MainLoop
take_tasks m = record m { tasks = m.main_tasks; main_tasks = []; loop_at = running }

unfoldable pub run_task : ℕ → List ℕ → MainLoop → MainLoop
run_task t rest m = record m { tasks = rest; ran = m.ran ++ (t ∷ []) }

unfoldable pub wait_again : MainLoop → MainLoop
wait_again m = record m { loop_at = waiting }

pub data Step (m : MainLoop) : MainLoop → Type 0 where
  pushes : (t : ℕ) → Step m (push_task t m)
  sets : (others : ℕ) → m.setting ≡ suc others → Step m (set_bit others m)
  wakes : m.loop_at ≡ waiting → m.schedule_event ≡ true → Step m (wake m)
  takes : m.loop_at ≡ woken → Step m (take_tasks m)
  runs :
      (t : ℕ) (rest : List ℕ)
      → m.loop_at ≡ running
      → m.tasks ≡ t ∷ rest
      → Step m (run_task t rest m)
  waits : m.loop_at ≡ running → m.tasks ≡ [] → Step m (wait_again m)

pub data Reach (m : MainLoop) : MainLoop → Type 0 where
  here : Reach m m
  next : {n o : MainLoop} → Reach m n → Step n o → Reach m o
