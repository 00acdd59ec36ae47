-- ===== src/AudioInput.antt =====
-- application.cc: `OnAudioInput` and `ReadAudio`, which take what the codec records to the processor.
pub mod Frame
pub mod Thread
use xiaozhi_pc.Base.{
  ℕ, ◌≡◌, Bool, true, false, ◌&&◌, some, List, ◌∷◌, if◌then◌else◌, ltb, replicate,
}
use xiaozhi_pc.Base.Int.{ℤ}
use xiaozhi_pc.Codec.{Codec, Got, input_data}
use xiaozhi_pc.AudioProcessor.{
  waiting, calling, Processor, feed, start, stop, take_front, call_returns, get_feed_size,
}

-- The buffer, and the codec; whether anything was read is not used.
unfoldable pub read_audio : Got → ℕ → Codec → List ℕ × Codec
unfolding input_data
read_audio g samples c = let r = (input_data g (replicate samples 0) c).1 in (r.dest, r.codec)

pub record InputResult : Type 0 where
  pub codec : Codec
  pub processor : Processor
  -- whether `vTaskDelay` is called
  pub delays : Bool

-- The arguments before the state are what `SDL_GetAudioStreamAvailable` and
-- `SDL_GetAudioStreamData` give.
unfoldable pub on_audio_input : ℤ → Got → Codec → Processor → InputResult
unfolding read_audio get_feed_size feed
on_audio_input available g c p =
    let samples = get_feed_size (some c.input_sample_rate) available in
    let heard = read_audio g samples c in
    if p.is_running && ltb 0 samples
    then record { codec = heard.1; processor = feed heard.0 p; delays = false }
    else record { codec = c; processor = p; delays = true }

-- What the application does with the codec and the processor while it runs: the audio loop comes
-- round, the processor is started and stopped, and its thread takes its steps.
pub data Happens (c : Codec) (p : Processor) : Codec → Processor → Type 0 where
  hears :
      (available : ℤ) (g : Got)
      → Happens c p
          (on_audio_input available g c p).codec
          (on_audio_input available g c p).processor
  starts : Happens c p c (start p)
  stops : Happens c p c (stop p)
  takes :
      (xs : List ℕ) (rest : List (List ℕ))
      → p.thread_at ≡ waiting
      → p.queue ≡ xs ∷ rest
      → Happens c p c (take_front xs rest p)
  returns : (xs : List ℕ) → p.thread_at ≡ calling xs → Happens c p c (call_returns p)

pub data Reach (c : Codec) (p : Processor) : Codec → Processor → Type 0 where
  here : Reach c p c p
  next :
      {c' c'' : Codec} {p' p'' : Processor}
      → Reach c p c' p'
      → Happens c' p' c'' p''
      → Reach c p c'' p''
