-- ===== src/BackgroundTask/Completion.antt =====
-- background_task.cc: every job is called once and in order, and `WaitForCompletion` waits for it.
use xiaozhi_pc.Base.{
  ℕ, ◌+◌, ◌≡◌, refl, ap, sym, ◌∙◌, Bool, true, false, Option, none, some, List, [], ◌∷◌, ◌++◌,
  arith, length, length-append, append_assoc, append-nil,
}
use xiaozhi_pc.BackgroundTask.{
  BackgroundTask, is_complete, initial, schedule, take_batch, call, finish, destroy, Step,
  schedules, destroys, takes, calls, finishes, Reach, here, next,
}

abbrev size_of_current : Option ℕ → ℕ
size_of_current none = 0
size_of_current (some j) = 1

pub record Inv (b : BackgroundTask) : Type 0 where
  pub counted : b.active_tasks ≡ length b.main_tasks + length b.batch + size_of_current b.current
  pub in_order : b.called ++ (b.batch ++ b.main_tasks) ≡ b.scheduled

Step-Inv : {b c : BackgroundTask} {n : Bool} → Step b n c → Inv b → Inv c
unfolding schedule take_batch call finish destroy
Step-Inv {b} (schedules j d) v = record {
  counted = ground (arith, v.counted, length-append b.main_tasks (j ∷ []));
  in_order =
      sym (ap (◌++◌ b.called) (append_assoc b.batch b.main_tasks (j ∷ [])))
      ∙ sym (append_assoc b.called (b.batch ++ b.main_tasks) (j ∷ []))
      ∙ ap (λ (l : List ℕ). l ++ (j ∷ [])) v.in_order;
}
Step-Inv {b} (destroys d) v = record { counted = v.counted; in_order = v.in_order }
Step-Inv {b} (takes e c ne) v = record {
  counted = ground (arith, v.counted);
  in_order = ground (arith, v.in_order, append-nil b.main_tasks);
}
Step-Inv {b} (calls j rest e c) v = record {
  counted = ground (arith, v.counted);
  in_order = append_assoc b.called (j ∷ []) (rest ++ b.main_tasks) ∙ ground (arith, v.in_order);
}
Step-Inv {b} (finishes j c) v = record {
  counted = ground (arith, v.counted);
  in_order = v.in_order;
}

pub Reach-Inv : {b c : BackgroundTask} → Inv b → Reach b c → Inv c
Reach-Inv v here = v
Reach-Inv v (next r s) = Step-Inv s (Reach-Inv v r)

initial-Inv : Inv initial
initial-Inv = record { counted = omega arith; in_order = refl }

empty_lists :
    (b : BackgroundTask) → Inv b → is_complete b ≡ true → (b.batch ≡ []) × (b.main_tasks ≡ [])
empty_lists b v h = ground (arith, v.counted)

-- In any interleaving, when `WaitForCompletion` finds its condition, every job that was scheduled
-- has been called, once each and in the order of scheduling.
pub called-eq-scheduled :
    (b : BackgroundTask) → Reach initial b → is_complete b ≡ true → b.called ≡ b.scheduled
called-eq-scheduled b r h =
    let v = Reach-Inv initial-Inv r in
    let (eb, em) = empty_lists b v h in
    sym (append-nil b.called) ∙ ground (arith, v.in_order, eb, em)

notifies :
    {b c : BackgroundTask} {n : Bool}
    → Step b n c
    → Inv b
    → is_complete b ≡ false
    → is_complete c ≡ true
    → n ≡ true
unfolding schedule take_batch call finish destroy
notifies (schedules j d) v h k = refl
notifies {b} (destroys d) v h k = ground arith
notifies {b} (takes e c ne) v h k = ground (arith, v.counted)
notifies {b} (calls j rest e c) v h k = ground arith
notifies (finishes j c) v h k = k

-- No wake-up is lost: in any interleaving, a step that makes the condition of `WaitForCompletion`
-- true calls `notify_all`.
pub Step-notifies :
    (b c : BackgroundTask) (n : Bool)
    → Reach initial b
    → Step b n c
    → is_complete b ≡ false
    → is_complete c ≡ true
    → n ≡ true
Step-notifies b c n r s = notifies s (Reach-Inv initial-Inv r)

-- What the worker does alone, while nothing more is scheduled.
pub data Works : BackgroundTask → BackgroundTask → Type 0 where
  stop : {b : BackgroundTask} → Works b b
  more :
      {b c d : BackgroundTask} {n : Bool}
      → Step b n c
      → c.scheduled ≡ b.scheduled
      → c.destroyed ≡ b.destroyed
      → Works c d
      → Works b d

Works-Inv : {b c : BackgroundTask} → Works b c → Inv b → Inv c
Works-Inv stop v = v
Works-Inv (more s e f w) v = Works-Inv w (Step-Inv s v)

-- The worker runs the rest of its batch.
record BatchDone (b c : BackgroundTask) : Type 0 where
  works : Works b c
  no_batch : c.batch ≡ []
  no_current : c.current ≡ none
  same_tasks : c.main_tasks ≡ b.main_tasks

run_batch :
    (js : List ℕ) (b : BackgroundTask)
    → b.batch ≡ js
    → b.current ≡ none
    → (c : BackgroundTask) × BatchDone b c
unfolding call finish
run_batch [] b e n = (b, record { works = stop; no_batch = e; no_current = n; same_tasks = refl })
run_batch (j ∷ js) b e n =
    let (c, d) = run_batch js (finish (call j js b)) refl refl in
    (
      c,
      record {
        works = more (calls j js e n) refl refl (more (finishes j refl) refl refl d.works);
        no_batch = d.no_batch;
        no_current = d.no_current;
        same_tasks = d.same_tasks;
      },
    )

finish_current :
    (j? : Option ℕ) (b : BackgroundTask) → b.current ≡ j? → (c : BackgroundTask) × BatchDone b c
unfolding finish
finish_current none b e = run_batch b.batch b refl e
finish_current (some j) b e =
    let (c, d) = run_batch b.batch (finish b) refl refl in
    (
      c,
      record {
        works = more (finishes j e) refl refl d.works;
        no_batch = d.no_batch;
        no_current = d.no_current;
        same_tasks = d.same_tasks;
      },
    )

Works-trans : {b c d : BackgroundTask} → Works b c → Works c d → Works b d
Works-trans stop w = w
Works-trans (more s e f v) w = more s e f (Works-trans v w)

take_rest :
    (js : List ℕ) (b : BackgroundTask)
    → b.main_tasks ≡ js
    → Inv b
    → b.batch ≡ []
    → b.current ≡ none
    → (c : BackgroundTask) × Works b c × (is_complete c ≡ true)
unfolding take_batch
take_rest [] b m v e n = (b, stop, ground (arith, v.counted))
take_rest (j ∷ js) b m v e n =
    let (c, d) = run_batch (j ∷ js) (take_batch b) m n in
    let works : Works b c = more (takes e n (ground arith)) refl refl d.works in
    (c, works, ground (arith, (Works-Inv works v).counted, d.no_batch, d.no_current, d.same_tasks))

-- From any state that can be reached, also behind the destructor, the worker on its own, with nothing
-- more scheduled, can get to where the condition of `WaitForCompletion` holds.
pub completes :
    (b : BackgroundTask)
    → Reach initial b
    → (c : BackgroundTask) × Works b c × (is_complete c ≡ true)
completes b r =
    let v = Reach-Inv initial-Inv r in
    let (c, d) = finish_current b.current b refl in
    let (e, works, done) =
      take_rest c.main_tasks c refl (Works-Inv d.works v) d.no_batch d.no_current in
    (e, Works-trans d.works works, done)
