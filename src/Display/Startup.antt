-- ===== src/Display/Startup.antt =====
-- porting/impl/ui_thread.cc: `UIThread::start` and the head of `ui_routine`, which tells it over a
-- condition variable how it went. The steps are the sections under `mtx_init` and what lies between
-- them, in any interleaving.
pub mod Phases
pub mod Returns
use xiaozhi_pc.Base.{[], if◌then◌else◌, Bool, true, false, List, ◌≡◌}
use xiaozhi_pc.Display.Window.{UiEvent, Request, on_events}

-- Where the window's thread stands; `exited` is the end of the process in `exit(0)`.
pub data ThreadAt : Type 0 where
  absent starting drawing ended exited : ThreadAt

-- Where `start` stands: before the thread is made; in `wait`, about to test `inited` or asleep; behind
-- the wait; or at its end with its result.
pub data StarterAt : Type 0 where
  calling testing asleep woken : StarterAt
  returned : Bool → StarterAt

pub record Startup : Type 0 where
  pub inited : Bool
  pub init_success : Bool
  pub thread_at : ThreadAt
  pub starter_at : StarterAt
  -- SDL_Quit was called
  pub sdl_quit : Bool
  -- what the window's thread asked of the application
  pub requests : List Request

abbrev pub initial : Startup
initial = record {
  inited = false;
  init_success = false;
  thread_at = absent;
  starter_at = calling;
  sdl_quit = false;
  requests = [];
}

-- `cond_init_done.notify_one()`: a sleeper tests again.
unfoldable pub notify_one : StarterAt → StarterAt
notify_one asleep = testing
notify_one a = a

-- The section in which the thread tells its result.
unfoldable pub tell : Bool → Startup → Startup
unfolding notify_one
tell ok s = record s {
  inited = true;
  init_success = ok;
  starter_at = notify_one s.starter_at;
  thread_at = if ok then drawing else ended;
}

-- One round of the loop of `ui_routine`, on the events that are there.
unfoldable pub draw_round : List UiEvent → Startup → Startup
draw_round es s =
    let (running, rs) = on_events es (true, s.requests) in
    record s { requests = rs; thread_at = if running then drawing else exited }

-- The flags say whether `SDL_Init` and `SDL_CreateWindowAndRenderer` succeed.
pub data Step (init_ok window_ok : Bool) (s : Startup) : Startup → Type 0 where
  spawns :
      s.starter_at ≡ calling
      → Step init_ok window_ok s (record s { starter_at = testing; thread_at = starting })
  init_fails : s.thread_at ≡ starting → init_ok ≡ false → Step init_ok window_ok s (tell false s)
  window_fails :
      s.thread_at ≡ starting
      → init_ok ≡ true
      → window_ok ≡ false
      → Step init_ok window_ok s (tell false (record s { sdl_quit = true }))
  succeeds :
      s.thread_at ≡ starting
      → init_ok ≡ true
      → window_ok ≡ true
      → Step init_ok window_ok s (tell true s)
  draws : (es : List UiEvent) → s.thread_at ≡ drawing → Step init_ok window_ok s (draw_round es s)
  -- the predicate of `wait` under the mutex
  passes :
      s.starter_at ≡ testing
      → s.inited ≡ true
      → Step init_ok window_ok s (record s { starter_at = woken })
  sleeps :
      s.starter_at ≡ testing
      → s.inited ≡ false
      → Step init_ok window_ok s (record s { starter_at = asleep })
  -- a wake-up without a call of `notify_one`, which the standard allows
  wakes_spuriously :
      s.starter_at ≡ asleep → Step init_ok window_ok s (record s { starter_at = testing })
  joins :
      s.starter_at ≡ woken
      → s.init_success ≡ false
      → s.thread_at ≡ ended
      → Step init_ok window_ok s (record s { starter_at = returned false })
  returns :
      s.starter_at ≡ woken
      → s.init_success ≡ true
      → Step init_ok window_ok s (record s { starter_at = returned true })

pub data Reach (init_ok window_ok : Bool) (s : Startup) : Startup → Type 0 where
  here : Reach init_ok window_ok s s
  next :
      {t u : Startup}
      → Reach init_ok window_ok s t
      → Step init_ok window_ok t u
      → Reach init_ok window_ok s u
