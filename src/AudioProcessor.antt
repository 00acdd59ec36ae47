-- ===== src/AudioProcessor.antt =====
-- porting/impl/sdl_audio_processor.cc: the processor's queue and its thread. The steps are the
-- sections under the mutex and the call of the callback, in any interleaving.
pub mod Frames
pub mod Ends
use xiaozhi_pc.Base.{
  ℕ, ◌+◌, ◌-◌, ◌*◌, ◌/◌, ◌^◌, Bool, true, false, Option, none, some, List, [], ◌∷◌, ◌++◌,
  if◌then◌else◌, leb, ◌≡◌,
}
use xiaozhi_pc.Base.Int.{ℤ, pos, negsuc}

-- Where `task` stands: before the wait, in the callback with its data, or returned. A thread that
-- was not created has `ended`.
pub data ThreadAt : Type 0 where
  waiting ended : ThreadAt
  calling : List ℕ → ThreadAt

pub record Processor : Type 0 where
  -- whether `thread_` is not null
  pub has_thread : Bool
  pub is_running : Bool
  pub queue : List (List ℕ)
  pub thread_at : ThreadAt
  -- whether the destructor's section was run
  pub destroyed : Bool
  -- what `Feed` put on the queue, and what the callback was called with, in order
  pub fed : List (List ℕ)
  pub delivered : List (List ℕ)

-- `Initialize`; the flag says whether the thread could be created.
unfoldable pub initialize : Bool → Processor
initialize created = record {
  has_thread = created;
  is_running = false;
  queue = [];
  thread_at = if created then waiting else ended;
  destroyed = false;
  fed = [];
  delivered = [];
}

unfoldable pub feed : List ℕ → Processor → Processor
feed xs p =
    if p.has_thread then record p { queue = p.queue ++ (xs ∷ []); fed = p.fed ++ (xs ∷ []) } else p

unfoldable pub start : Processor → Processor
start p = record p { is_running = true }

unfoldable pub stop : Processor → Processor
stop p = record p { is_running = false }

-- What the thread does with the front of the queue; `rest` is what stands behind it.
unfoldable pub take_front : List ℕ → List (List ℕ) → Processor → Processor
take_front [] rest p = record p { queue = rest; thread_at = ended }
take_front (x ∷ xs) rest p =
    if p.is_running
    then record p {
      queue = rest;
      thread_at = calling (x ∷ xs);
      delivered = p.delivered ++ ((x ∷ xs) ∷ []);
    }
    else record p { queue = rest }

-- The callback returns.
unfoldable pub call_returns : Processor → Processor
call_returns p = record p { thread_at = waiting }

-- The destructor up to `SDL_WaitThread`.
unfoldable pub destroy : Processor → Processor
destroy p =
    if p.has_thread
    then record p { queue = [] ∷ []; destroyed = true }
    else record p { destroyed = true }

-- The object is not used once its destructor has begun, but by its thread.
pub data Step (p : Processor) : Processor → Type 0 where
  feeds : (xs : List ℕ) → p.destroyed ≡ false → Step p (feed xs p)
  starts : p.destroyed ≡ false → Step p (start p)
  stops : p.destroyed ≡ false → Step p (stop p)
  takes :
      (xs : List ℕ) (rest : List (List ℕ))
      → p.thread_at ≡ waiting
      → p.queue ≡ xs ∷ rest
      → Step p (take_front xs rest p)
  returns : (xs : List ℕ) → p.thread_at ≡ calling xs → Step p (call_returns p)
  destroys : p.destroyed ≡ false → Step p (destroy p)

-- A run of a number of steps.
pub data Run (p : Processor) : ℕ → Processor → Type 0 where
  here : Run p 0 p
  next : {n : ℕ} {q r : Processor} → Run p n q → Step q r → Run p (n + 1) r

-- An `int` that is converted to `size_t`.
unfoldable pub to_size_t : ℤ → ℕ
to_size_t (pos n) = n
to_size_t (negsuc n) = 2 ^ 64 - (n + 1)

abbrev pub frame_size : ℕ → ℕ
frame_size rate = 60 * rate / 1000

-- `GetFeedSize`, for the sample rate of the codec, if there is one, and what
-- `SDL_GetAudioStreamAvailable` returns.
unfoldable pub get_feed_size : Option ℕ → ℤ → ℕ
unfolding to_size_t
get_feed_size none available = 0
get_feed_size (some rate) available =
    if leb (to_size_t available) (frame_size rate * 2) then 0 else frame_size rate
