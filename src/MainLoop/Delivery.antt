-- ===== src/MainLoop/Delivery.antt =====
-- application.cc: no scheduled task is lost or run out of order, and the loop never sleeps on one.
use xiaozhi_pc.Base.{
  ℕ, ◌<◌, ◌≡◌, ◌≢◌, refl, ap, sym, ◌∙◌, true, false, ◌⊎◌, inl, inr, List, [], ◌∷◌, ◌++◌, arith,
  append_assoc, append-nil,
}
use xiaozhi_pc.MainLoop.{
  waiting, woken, running, MainLoop, initial, push_task, set_bit, wake, take_tasks, run_task,
  wait_again, Step, pushes, sets, wakes, takes, runs, waits, Reach, here, next,
}

-- Somebody is about to look at the list: the bit is set, or will be, or the loop is awake.
abbrev WillLook : MainLoop → Type 0
WillLook m = (m.schedule_event ≡ true) ⊎ (0 < m.setting) ⊎ (m.loop_at ≡ woken)

record Inv (m : MainLoop) : Type 0 where
  in_order : m.ran ++ (m.tasks ++ m.main_tasks) ≡ m.scheduled
  looked_at : m.main_tasks ≢ [] → WillLook m
  batch_in_run : m.loop_at ≢ running → m.tasks ≡ []

Step-Inv : {m n : MainLoop} → Step m n → Inv m → Inv n
unfolding push_task set_bit wake take_tasks run_task wait_again
Step-Inv {m} (pushes t) v = record {
  in_order =
      sym (ap (◌++◌ m.ran) (append_assoc m.tasks m.main_tasks (t ∷ [])))
      ∙ sym (append_assoc m.ran (m.tasks ++ m.main_tasks) (t ∷ []))
      ∙ ap (λ (l : List ℕ). l ++ (t ∷ [])) v.in_order;
  looked_at = λ _. inr (inl (omega arith));
  batch_in_run = v.batch_in_run;
}
Step-Inv {m} (sets others e) v = record {
  in_order = v.in_order;
  looked_at = λ _. inl refl;
  batch_in_run = v.batch_in_run;
}
Step-Inv {m} (wakes a b) v = record {
  in_order = v.in_order;
  looked_at = λ _. inr (inr refl);
  batch_in_run = λ _. v.batch_in_run (λ e. cc);
}
Step-Inv {m} (takes a) v = record {
  in_order = ground (arith, v.in_order, v.batch_in_run (λ e. cc), append-nil m.main_tasks);
  looked_at = λ h. absurd (h refl);
  batch_in_run = λ h. absurd (h refl);
}
Step-Inv {m} (runs t rest a e) v = record {
  in_order = append_assoc m.ran (t ∷ []) (rest ++ m.main_tasks) ∙ ground (arith, v.in_order);
  looked_at = v.looked_at;
  batch_in_run = λ h. absurd (h a);
}
Step-Inv {m} (waits a e) v = record {
  in_order = v.in_order;
  looked_at = λ h. ground (arith, v.looked_at h);
  batch_in_run = λ _. e;
}

Reach-Inv : {m n : MainLoop} → Inv m → Reach m n → Inv n
Reach-Inv v here = v
Reach-Inv v (next r s) = Step-Inv s (Reach-Inv v r)

initial-Inv : Inv initial
initial-Inv = record { in_order = refl; looked_at = λ h. absurd (h refl); batch_in_run = λ _. refl }

-- In any interleaving the tasks run so far are the first of those scheduled, in that order, and
-- what is left of them is in the loop's hands or on the list: none is lost, run twice or overtaken.
pub ran-append : (m : MainLoop) → Reach initial m → m.ran ++ (m.tasks ++ m.main_tasks) ≡ m.scheduled
ran-append m r = (Reach-Inv initial-Inv r).in_order

-- No wake-up is lost: when the loop waits for a bit that is clear, and no thread is between adding
-- its task and setting the bit, every task that was scheduled has run.
pub waiting_idle :
    (m : MainLoop)
    → Reach initial m
    → m.loop_at ≡ waiting
    → m.schedule_event ≡ false
    → m.setting ≡ 0
    → m.ran ≡ m.scheduled
waiting_idle m r w b s = drained m.main_tasks refl
  where
    v : Inv m
    v = Reach-Inv initial-Inv r

    none_left : m.tasks ≡ []
    none_left = v.batch_in_run (λ e. cc)

    drained : (ts : List ℕ) → m.main_tasks ≡ ts → m.ran ≡ m.scheduled
    drained [] e = sym (append-nil m.ran) ∙ ground (arith, v.in_order, none_left)
    drained (t ∷ ts) e = absurd (nobody (v.looked_at (ground arith)))
      where
        nobody : WillLook m → ⊥
        nobody (inl x) = cc
        nobody (inr (inl x)) = omega arith
        nobody (inr (inr x)) = cc
