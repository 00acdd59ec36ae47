-- ===== src/Display/Startup/Returns.antt =====
-- porting/impl/ui_thread.cc: what `UIThread::start` returns, and that it does.
use xiaozhi_pc.Base.{ℕ, ◌+◌, Bool, true, false, ◌≡◌, ◌⊎◌, refl, sym, ◌∙◌, arith}
use xiaozhi_pc.Display.Window.{start_result}
use xiaozhi_pc.Display.Startup.{
  ThreadAt, starting, ended, StarterAt, calling, testing, asleep, woken, returned, Startup, initial,
  Step, draws, wakes_spuriously, Reach,
}
use xiaozhi_pc.Display.Startup.Phases.{
  Inv, before, trying, shown, failed, result_of, InWait-not_returned, Reach-Inv,
}

abbrev pub starter_rank : StarterAt → ℕ
starter_rank calling = 9
starter_rank testing = 3
starter_rank asleep = 2
starter_rank woken = 1
starter_rank (returned b) = 0

abbrev pub thread_rank : ThreadAt → ℕ
thread_rank starting = 5
thread_rank _ = 0

-- A step of `start`, or the end of the thread's attempt.
abbrev pub is_progress :
    {init_ok window_ok : Bool} {s t : Startup} → Step init_ok window_ok s t → Bool
is_progress (draws es a) = false
is_progress (wakes_spuriously a) = false
is_progress _ = true

-- How many steps are left at most.
abbrev pub rank : Startup → ℕ
rank s = starter_rank s.starter_at + thread_rank s.thread_at

module _ (init_ok window_ok : Bool) where
  of_result :
      (ok : Bool) (s : Startup) (b : Bool)
      → Inv ok s
      → s.starter_at ≡ returned b
      → (b ≡ ok) × (b ≡ false → s.thread_at ≡ ended)
  of_result ok s b (before c t f) e = cc
  of_result ok s b (trying c t f) e = absurd (InWait-not_returned b _ c e)
  of_result ok s b (shown h j k l t) e =
      let r = result_of true b s.starter_at h e in (r ∙ sym l, λ f. absurd (ground (arith, r, f)))
  of_result ok s b (failed h j k l t) e =
      let r = result_of false b s.starter_at h e in (r ∙ sym l, λ f. t)

  -- Whatever the interleaving, `start` returns whether SDL and the window could be made, and returns
  -- false only when the window's thread has come to its end.
  pub start_returned :
      (s : Startup) (b : Bool)
      → Reach init_ok window_ok initial s
      → s.starter_at ≡ returned b
      → (b ≡ start_result init_ok window_ok) × (b ≡ false → s.thread_at ≡ ended)
  start_returned s b r =
      of_result (start_result init_ok window_ok) s b
        (Reach-Inv init_ok window_ok r (before refl refl refl))

  -- `start` has returned its result, or it or the thread can go on.
  GoesOn : Startup → Type 0
  GoesOn s =
      (s.starter_at ≡ returned (start_result init_ok window_ok))
      ⊎ ((t : Startup) × (x : Step init_ok window_ok s t) × (is_progress x ≡ true))
