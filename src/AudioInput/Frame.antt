-- ===== src/AudioInput/Frame.antt =====
-- application.cc: the frame that a round of the audio loop puts on the queue.
use xiaozhi_pc.Base.{
  ℕ, zero, suc, ◌+◌, ◌-◌, ◌*◌, ◌<◌, ◌≤◌, ◌≡◌, ap, ◌∙◌, true, false, ◌&&◌, some, List, [], ◌∷◌, ◌++◌,
  if◌then◌else◌, ltb, leb, length, drop, replicate, length-append, arith, inl, inr, Bool-cases,
  length-replicate,
}
use xiaozhi_pc.Base.Int.{ℤ}
use xiaozhi_pc.Codec.{Codec, Got, failed, got, read, input_data}
use xiaozhi_pc.AudioProcessor.{Processor, feed, frame_size, to_size_t, get_feed_size}
use xiaozhi_pc.AudioInput.{read_audio, InputResult, on_audio_input}

-- What SDL gave, if the codec asks it.
pub heard_samples : Got → Codec → List ℕ
heard_samples failed c = []
heard_samples (got xs) c = if c.input_enabled && c.stream_in then xs else []

sub_suc : (k n : ℕ) → k - n ≡ suc k - suc n
sub_suc k n = omega arith

zero_sub : (n : ℕ) → 0 ≡ 0 - suc n
zero_sub n = omega arith

drop-replicate : (n k : ℕ) (a : ℕ) → drop n (replicate k a) ≡ replicate (k - n) a
drop-replicate zero k a = ap (λ (m : ℕ). replicate m a) (omega arith)
drop-replicate (suc n) zero a = ap (λ (m : ℕ). replicate m a) (zero_sub n)
drop-replicate (suc n) (suc k) a =
    drop-replicate n k a ∙ ap (λ (m : ℕ). replicate m a) (sub_suc k n)

-- The buffer holds what was heard, and zeros behind it.
read_audio_buffer :
    (g : Got) (n : ℕ) (c : Codec)
    → (read_audio g n c).0 ≡ heard_samples g c ++ replicate (n - length (heard_samples g c)) 0
unfolding read_audio input_data read heard_samples
read_audio_buffer failed n c = ap (λ (m : ℕ). replicate m 0) (omega arith)
read_audio_buffer (got xs) n c = elim (Bool-cases (c.input_enabled && c.stream_in)) [
  | inl on ↦ rw on (ap (◌++◌ xs) (drop-replicate (length xs) n 0))
  | inr off ↦ rw off (ap (λ (m : ℕ). replicate m 0) (omega arith))
]

-- The answers of SDL fit a buffer: it gives no more samples than it is asked for.
abbrev pub Fits : ℕ → Got → Type 0
Fits n failed = Unit {0}
Fits n (got xs) = length xs ≤ n

length-heard_samples : (n : ℕ) (g : Got) (c : Codec) → Fits n g → length (heard_samples g c) ≤ n
unfolding heard_samples
length-heard_samples n failed c h = omega arith
length-heard_samples n (got xs) c h = ground arith

on_audio_input_fed :
    (available : ℤ) (g : Got) (c : Codec) (p : Processor) (n : ℕ)
    → get_feed_size (some c.input_sample_rate) available ≡ n
    → p.is_running ≡ true
    → 0 < n
    → on_audio_input available g c p ≡ record {
      codec = (read_audio g n c).1;
      processor = feed (read_audio g n c).0 p;
      delays = false;
    }
unfolding on_audio_input
on_audio_input_fed available g c p n e on positive = rw (e, on, positive_lem n positive)
  where
    positive_lem : (k : ℕ) → 0 < k → ltb 0 k ≡ true
    positive_lem k h = ground arith

feed_size :
    (available : ℤ) (rate : ℕ)
    → frame_size rate * 2 < to_size_t available
    → get_feed_size (some rate) available ≡ frame_size rate
unfolding get_feed_size
feed_size available rate more = go (frame_size rate) (to_size_t available) more
  where
    go : (n m : ℕ) → n * 2 < m → (if leb m (n * 2) then 0 else n) ≡ n
    go n m h = ground arith

feed_queue :
    (xs : List ℕ) (p : Processor) → p.has_thread ≡ true → (feed xs p).queue ≡ p.queue ++ (xs ∷ [])
unfolding feed
feed_queue xs p has = rw has

-- When the processor runs and has its thread, a frame is not empty, and what SDL says is there to
-- be read is more than a frame, as an error is when it is converted, a round of the loop puts one
-- frame on the queue and goes on at once: what the codec heard, filled up with zeros to the samples
-- of 60 milliseconds, if SDL gives no more samples than it is asked for.
pub on_audio_input_frame :
    (available : ℤ) (g : Got) (c : Codec) (p : Processor)
    → p.is_running ≡ true
    → p.has_thread ≡ true
    → frame_size c.input_sample_rate * 2 < to_size_t available
    → 0 < frame_size c.input_sample_rate
    → Fits (frame_size c.input_sample_rate) g
    → let r = on_audio_input available g c p in
      let heard = heard_samples g c in
      let frame = heard ++ replicate (frame_size c.input_sample_rate - length heard) 0 in
      (r.processor.queue ≡ p.queue ++ (frame ∷ []))
      × (length frame ≡ frame_size c.input_sample_rate)
      × (r.delays ≡ false)
on_audio_input_frame available g c p on has more positive fits =
    let n = frame_size c.input_sample_rate in
    let e =
      on_audio_input_fed available g c p n (feed_size available c.input_sample_rate more) on
        positive in
    (
      ap (λ (r : InputResult). r.processor.queue) e
          ∙ feed_queue (read_audio g n c).0 p has
          ∙ ap (λ (f : List ℕ). p.queue ++ (f ∷ [])) (read_audio_buffer g n c),
      length-append (heard_samples g c) (replicate (n - length (heard_samples g c)) 0)
          ∙ ap (λ (k : ℕ). length (heard_samples g c) + k)
              (length-replicate (n - length (heard_samples g c)) 0)
          ∙ omega (arith, length-heard_samples n g c fits),
      ap (λ (r : InputResult). r.delays) e,
    )
