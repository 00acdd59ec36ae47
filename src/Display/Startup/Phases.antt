-- ===== src/Display/Startup/Phases.antt =====
-- porting/impl/ui_thread.cc: the states that `UIThread::start` and the thread of the window reach.
use xiaozhi_pc.Base.{Bool, true, false, List, ◌≡◌, ◌≢◌, ◌⊎◌, inl, inr, refl, subst, arith, if_cases}
use xiaozhi_pc.Display.Window.{UiEvent, on_events, start_result}
use xiaozhi_pc.Display.Startup.{
  ThreadAt, absent, starting, drawing, ended, exited, StarterAt, calling, testing, asleep, woken,
  returned, Startup, notify_one, tell, draw_round, Step, spawns, init_fails, window_fails, succeeds,
  draws, passes, sleeps, wakes_spuriously, joins, returns, Reach, here, next,
}

-- `start` tests what it waits for, is in the wait, or behind it.
pub data InWait : StarterAt → Type 0 where
  tests : InWait testing
  waits : InWait asleep

-- `start` is about to test, behind the wait, or at its end with that result: not asleep.
pub data HasCalled (r : Bool) : StarterAt → Type 0 where
  in_wait : HasCalled r testing
  behind_wait : HasCalled r woken
  at_end : HasCalled r (returned r)

-- The states that are reached: before the thread, while it tries, and behind its answer.
pub data Inv (ok : Bool) (s : Startup) : Type 0 where
  before : s.starter_at ≡ calling → s.thread_at ≡ absent → s.inited ≡ false → Inv ok s
  trying : InWait s.starter_at → s.thread_at ≡ starting → s.inited ≡ false → Inv ok s
  shown :
      HasCalled true s.starter_at
      → s.inited ≡ true
      → s.init_success ≡ true
      → ok ≡ true
      → (s.thread_at ≡ drawing) ⊎ (s.thread_at ≡ exited)
      → Inv ok s
  failed :
      HasCalled false s.starter_at
      → s.inited ≡ true
      → s.init_success ≡ false
      → ok ≡ false
      → s.thread_at ≡ ended
      → Inv ok s

pub not_calling : (r : Bool) (a : StarterAt) → HasCalled r a → a ≢ calling
not_calling r a in_wait e = cc
not_calling r a behind_wait e = cc
not_calling r a at_end e = cc

pub not_asleep : (r : Bool) (a : StarterAt) → HasCalled r a → a ≢ asleep
not_asleep r a in_wait e = cc
not_asleep r a behind_wait e = cc
not_asleep r a at_end e = cc

-- Who is in the wait tests next, once it is notified.
notified : (r : Bool) (a : StarterAt) → InWait a → HasCalled r (notify_one a)
unfolding notify_one
notified r a tests = in_wait
notified r a waits = in_wait

pub InWait-not_calling : (a : StarterAt) → InWait a → a ≢ calling
InWait-not_calling a tests e = cc
InWait-not_calling a waits e = cc

InWait-not_woken : (a : StarterAt) → InWait a → a ≢ woken
InWait-not_woken a tests e = cc
InWait-not_woken a waits e = cc

pub InWait-not_returned : (b : Bool) (a : StarterAt) → InWait a → a ≢ returned b
InWait-not_returned b a tests e = cc
InWait-not_returned b a waits e = cc

pub result_of : (r b : Bool) (a : StarterAt) → HasCalled r a → a ≡ returned b → b ≡ r
result_of r b a in_wait e = cc
result_of r b a behind_wait e = cc
result_of r b a at_end e = cc

module _ (init_ok window_ok : Bool) where
  Inv-tell-false :
      (s : Startup)
      → s.thread_at ≡ starting
      → start_result init_ok window_ok ≡ false
      → Inv (start_result init_ok window_ok) s
      → Inv (start_result init_ok window_ok) (tell false s)
  unfolding tell
  Inv-tell-false s a e (before c t f) = cc
  Inv-tell-false s a e (trying c t i) = failed (notified false s.starter_at c) refl refl e refl
  Inv-tell-false s a e (shown h i j k t) = absurd (ground (arith, t))
  Inv-tell-false s a e (failed h i j k t) = cc

  Inv-tell-true :
      (s : Startup)
      → s.thread_at ≡ starting
      → start_result init_ok window_ok ≡ true
      → Inv (start_result init_ok window_ok) s
      → Inv (start_result init_ok window_ok) (tell true s)
  unfolding tell
  Inv-tell-true s a e (before c t f) = cc
  Inv-tell-true s a e (trying c t i) = shown (notified true s.starter_at c) refl refl e (inl refl)
  Inv-tell-true s a e (shown h i j k t) = absurd (ground (arith, t))
  Inv-tell-true s a e (failed h i j k t) = cc

  Inv-draw_round :
      (es : List UiEvent) (s : Startup)
      → s.thread_at ≡ drawing
      → Inv (start_result init_ok window_ok) s
      → Inv (start_result init_ok window_ok) (draw_round es s)
  unfolding draw_round
  Inv-draw_round es s a (before c t f) = cc
  Inv-draw_round es s a (trying c t i) = cc
  Inv-draw_round es s a (shown h i j k t) = shown h i j k (
      if_cases (λ (x : ThreadAt). (x ≡ drawing) ⊎ (x ≡ exited)) (on_events es (true, s.requests)).0
        drawing exited (λ e. inl refl) (λ e. inr refl))
  Inv-draw_round es s a (failed h i j k t) = cc

  Inv-sdl_quit : {ok : Bool} (s : Startup) → Inv ok s → Inv ok (record s { sdl_quit = true })
  Inv-sdl_quit s (before c t f) = before c t f
  Inv-sdl_quit s (trying c t f) = trying c t f
  Inv-sdl_quit s (shown h j k l t) = shown h j k l t
  Inv-sdl_quit s (failed h j k l t) = failed h j k l t

  Inv-starter :
      (ok : Bool) (s : Startup) (x : StarterAt)
      → s.inited ≡ true
      → s.starter_at ≢ calling
      → HasCalled ok x
      → Inv ok s
      → Inv ok (record s { starter_at = x })
  Inv-starter ok s x i n h (before c t f) = absurd (n c)
  Inv-starter ok s x i n h (trying c t j) = cc
  Inv-starter ok s x i n h (shown h' j k l t) = shown (subst (λ b. HasCalled b x) l h) j k l t
  Inv-starter ok s x i n h (failed h' j k l t) = failed (subst (λ b. HasCalled b x) l h) j k l t

  pub Step-Inv :
      {s t : Startup}
      → Step init_ok window_ok s t
      → Inv (start_result init_ok window_ok) s
      → Inv (start_result init_ok window_ok) t
  unfolding start_result
  Step-Inv (spawns a) (before c t f) = trying tests refl f
  Step-Inv (spawns a) (trying c t i) = absurd (InWait-not_calling _ c a)
  Step-Inv (spawns a) (shown h i j k t) = absurd (not_calling true _ h a)
  Step-Inv (spawns a) (failed h i j k t) = absurd (not_calling false _ h a)
  Step-Inv {s} (init_fails a i) v = Inv-tell-false s a (rw i refl) v
  Step-Inv {s} (window_fails a i w) v =
      Inv-tell-false (record s { sdl_quit = true }) a (rw (i, w) refl) (Inv-sdl_quit s v)
  Step-Inv {s} (succeeds a i w) v = Inv-tell-true s a (rw (i, w) refl) v
  Step-Inv {s} (draws es a) v = Inv-draw_round es s a v
  Step-Inv {s} (passes a i) v =
      Inv-starter (start_result init_ok window_ok) s woken i (λ e. cc) behind_wait v
  Step-Inv (sleeps a i) (before c t f) = cc
  Step-Inv (sleeps a i) (trying c t f) = trying waits t f
  Step-Inv (sleeps a i) (shown h j k l t) = cc
  Step-Inv (sleeps a i) (failed h j k l t) = cc
  Step-Inv (wakes_spuriously a) (before c t f) = cc
  Step-Inv (wakes_spuriously a) (trying c t f) = trying tests t f
  Step-Inv (wakes_spuriously a) (shown h j k l t) = absurd (not_asleep true _ h a)
  Step-Inv (wakes_spuriously a) (failed h j k l t) = absurd (not_asleep false _ h a)
  Step-Inv (joins a i e) (before c t f) = cc
  Step-Inv (joins a i e) (trying c t f) = cc
  Step-Inv (joins a i e) (shown h j k l t) = cc
  Step-Inv (joins a i e) (failed h j k l t) = failed at_end j k l t
  Step-Inv (returns a i) (before c t f) = cc
  Step-Inv (returns a i) (trying c t f) = absurd (InWait-not_woken _ c a)
  Step-Inv (returns a i) (shown h j k l t) = shown at_end j k l t
  Step-Inv (returns a i) (failed h j k l t) = cc

  pub Reach-Inv :
      {s t : Startup}
      → Reach init_ok window_ok s t
      → Inv (start_result init_ok window_ok) s
      → Inv (start_result init_ok window_ok) t
  Reach-Inv here v = v
  Reach-Inv (next r x) v = Step-Inv x (Reach-Inv r v)
