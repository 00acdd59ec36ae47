-- ===== src/AudioInput/Thread.antt =====
-- application.cc: the audio loop never ends the thread of the processor.
use xiaozhi_pc.Base.{
  ℕ, zero, suc, ◌<◌, ◌≡◌, ◌≢◌, refl, subst, true, ◌&&◌, some, List, [], ◌∷◌, ◌++◌, ltb, arith,
  if_cases,
}
use xiaozhi_pc.Base.Int.{ℤ}
use xiaozhi_pc.Codec.{Codec, Got, failed, got, ReadResult, read, input_data}
use xiaozhi_pc.AudioProcessor.{
  ended, Processor, initialize, feed, start, stop, take_front, call_returns, get_feed_size,
}
use xiaozhi_pc.AudioProcessor.Ends.{AreFrames}
use xiaozhi_pc.AudioInput.{
  read_audio, InputResult, on_audio_input, Happens, hears, starts, stops, takes, returns, Reach,
  here, next,
}

record IsAlive (p : Processor) : Type 0 where
  no_empty : AreFrames p.queue
  alive : p.thread_at ≢ ended

AreFrames-append :
    (q : List (List ℕ)) (xs : List ℕ) → AreFrames q → xs ≢ [] → AreFrames (q ++ (xs ∷ []))
AreFrames-append [] xs a h = (h, tt)
AreFrames-append (ys ∷ q) xs a h = (a.0, AreFrames-append q xs a.1 h)

-- A buffer that was made with samples has some in the end.
read_audio_some : (g : Got) (n : ℕ) (c : Codec) → 0 < n → (read_audio g n c).0 ≢ []
unfolding read_audio input_data read
read_audio_some failed zero c positive e = absurd (omega arith)
read_audio_some failed (suc n) c positive e = cc
read_audio_some (got xs) zero c positive e = absurd (omega arith)
read_audio_some (got []) (suc n) c positive e =
    if_cases (λ (r : ReadResult). r.dest ≢ []) (c.input_enabled && c.stream_in) _ _ (λ h e'. cc)
      (λ h e'. cc) e
read_audio_some (got (x ∷ xs)) (suc n) c positive e =
    if_cases (λ (r : ReadResult). r.dest ≢ []) (c.input_enabled && c.stream_in) _ _ (λ h e'. cc)
      (λ h e'. cc) e

feed-IsAlive : (xs : List ℕ) (p : Processor) → xs ≢ [] → IsAlive p → IsAlive (feed xs p)
unfolding feed
feed-IsAlive xs p h v =
    if_cases IsAlive p.has_thread _ p
      (λ has. record { no_empty = AreFrames-append p.queue xs v.no_empty h; alive = v.alive })
      (λ none. v)

on_audio_input-IsAlive :
    (available : ℤ) (g : Got) (c : Codec) (p : Processor)
    → IsAlive p
    → IsAlive (on_audio_input available g c p).processor
unfolding on_audio_input
on_audio_input-IsAlive available g c p v =
    if_cases (λ (r : InputResult). IsAlive r.processor)
      (p.is_running && ltb 0 (get_feed_size (some c.input_sample_rate) available)) _ _
      (λ test.
        feed-IsAlive (read_audio g (get_feed_size (some c.input_sample_rate) available) c).0 p
          (read_audio_some g (get_feed_size (some c.input_sample_rate) available) c (ground arith))
          v)
      (λ test. v)

take_front-IsAlive :
    (xs : List ℕ) (rest : List (List ℕ)) (p : Processor)
    → p.queue ≡ xs ∷ rest
    → IsAlive p
    → IsAlive (take_front xs rest p)
unfolding take_front
take_front-IsAlive [] rest p e v = absurd ((subst AreFrames e v.no_empty).0 refl)
take_front-IsAlive (x ∷ xs) rest p e v =
    let rest_frames = (subst AreFrames e v.no_empty).1 in
    if_cases IsAlive p.is_running _ _ (λ on. record { no_empty = rest_frames; alive = λ h. cc })
      (λ off. record { no_empty = rest_frames; alive = v.alive })

Happens-IsAlive :
    {c : Codec} {p : Processor} {d : Codec} {q : Processor}
    → Happens c p d q
    → IsAlive p
    → IsAlive q
unfolding start stop call_returns
Happens-IsAlive {c} {p} (hears available g) v = on_audio_input-IsAlive available g c p v
Happens-IsAlive starts v = record { no_empty = v.no_empty; alive = v.alive }
Happens-IsAlive stops v = record { no_empty = v.no_empty; alive = v.alive }
Happens-IsAlive {c} {p} (takes xs rest t e) v = take_front-IsAlive xs rest p e v
Happens-IsAlive (returns xs t) v = record { no_empty = v.no_empty; alive = λ e. cc }

Reach-IsAlive :
    {c : Codec} {p : Processor} {d : Codec} {q : Processor} → Reach c p d q → IsAlive p → IsAlive q
Reach-IsAlive here v = v
Reach-IsAlive (next r s) v = Happens-IsAlive s (Reach-IsAlive r v)

initialize-IsAlive : IsAlive (initialize true)
unfolding initialize
initialize-IsAlive = record { no_empty = tt; alive = λ e. cc }

-- If the processor's thread could be created, it does not end before the destructor, and no empty
-- vector is on its queue, whatever SDL answers and in any interleaving of the audio loop, of starts
-- and stops, and of the thread's steps.
pub thread_does_not_end :
    (c d : Codec) (p : Processor)
    → Reach c (initialize true) d p
    → (p.thread_at ≢ ended) × AreFrames p.queue
thread_does_not_end c d p r = let v = Reach-IsAlive r initialize-IsAlive in (v.alive, v.no_empty)
