-- ===== src/AudioProcessor/Ends.antt =====
-- porting/impl/sdl_audio_processor.cc: the end of the thread, and what it delivers while it runs.
use xiaozhi_pc.Base.{
  ℕ, ◌+◌, ◌≤◌, ◌≡◌, ◌≢◌, refl, ap, sym, ◌∙◌, Bool, true, List, [], ◌∷◌, ◌++◌, ◌⊎◌, arith, inl, inr,
  append_assoc, append-nil,
}
use xiaozhi_pc.AudioProcessor.{
  ThreadAt, waiting, ended, calling, Processor, initialize, feed, start, stop, take_front,
  call_returns, destroy, Step, feeds, starts, stops, takes, returns, destroys, Run, here, next,
}

-- A waiting thread is there, and once the destructor's section was run, all that it finds is the
-- empty vector.
record IsEnding (p : Processor) : Type 0 where
  there : p.thread_at ≢ ended → p.has_thread ≡ true
  last : p.destroyed ≡ true → p.thread_at ≢ ended → p.queue ≡ [] ∷ []

Step-IsEnding : {p q : Processor} → Step p q → IsEnding p → IsEnding q
unfolding feed start stop take_front call_returns destroy
Step-IsEnding {p} (feeds xs d) v = record { there = ground (arith, v.there); last = ground arith }
Step-IsEnding (starts d) v = record { there = v.there; last = v.last }
Step-IsEnding (stops d) v = record { there = v.there; last = v.last }
Step-IsEnding {p} (takes [] rest t e) v = record {
  there = λ h. absurd (h refl);
  last = λ d h. absurd (h refl);
}
Step-IsEnding {p} (takes (x ∷ xs) rest t e) v = record {
  there = ground (arith, v.there);
  last = ground (arith, v.last);
}
Step-IsEnding {p} (returns xs t) v = record {
  there = ground (arith, v.there);
  last = ground (arith, v.last);
}
Step-IsEnding {p} (destroys d) v = record {
  there = ground (arith, v.there);
  last = ground (arith, v.there);
}

Run-IsEnding : {p q : Processor} {n : ℕ} → Run p n q → IsEnding p → IsEnding q
Run-IsEnding here v = v
Run-IsEnding (next r s) v = Step-IsEnding s (Run-IsEnding r v)

initialize-IsEnding : (created : Bool) → IsEnding (initialize created)
unfolding initialize
initialize-IsEnding created = record { there = ground arith; last = ground arith }

-- The steps that the thread has left.
abbrev left : ThreadAt → ℕ
left waiting = 1
left (calling xs) = 2
left ended = 0

-- Each step behind the destructor is one of the thread's.
Step-left :
    {p q : Processor}
    → Step p q
    → IsEnding p
    → p.destroyed ≡ true
    → (q.destroyed ≡ true) × (left q.thread_at + 1 ≤ left p.thread_at)
unfolding take_front call_returns
Step-left (feeds xs d) v h = cc
Step-left (starts d) v h = cc
Step-left (stops d) v h = cc
Step-left (takes [] rest t e) v h = (h, rw t (omega arith))
Step-left {p} (takes (x ∷ xs) rest t e) v h = let last = v.last h (λ g. cc) in cc
Step-left (returns xs t) v h = (h, rw t (omega arith))
Step-left (destroys d) v h = cc

Run-left :
    {p q : Processor} {n : ℕ}
    → Run p n q
    → IsEnding p
    → p.destroyed ≡ true
    → (q.destroyed ≡ true) × (left q.thread_at + n ≤ left p.thread_at)
Run-left here v h = (h, omega arith)
Run-left (next r s) v h =
    let (d, l) = Run-left r v h in
    let (d', l') = Step-left s (Run-IsEnding r v) d in (d', omega arith)

-- A thread that has not ended can go on.
goes_on :
    (t : ThreadAt) (p : Processor)
    → p.thread_at ≡ t
    → IsEnding p
    → p.destroyed ≡ true
    → (p.thread_at ≡ ended) ⊎ ((q : Processor) × Step p q)
goes_on waiting p e v h = inr (take_front [] [] p, takes [] [] e (v.last h (λ g. cc)))
goes_on ended p e v h = inl e
goes_on (calling xs) p e v h = inr (call_returns p, returns xs e)

left_bound : (t : ThreadAt) → left t ≤ 2
left_bound waiting = omega arith
left_bound ended = omega arith
left_bound (calling xs) = omega arith

-- Once the destructor has run its section, in any state that can be reached then, the thread comes
-- to its end, so that `SDL_WaitThread` returns: it takes two steps more at most in any
-- interleaving, and while it has not ended a step can be taken.
pub destroyed_ends :
    (created : Bool) (m n : ℕ) (p q : Processor)
    → Run (initialize created) m p
    → p.destroyed ≡ true
    → Run p n q
    → (n ≤ 2) × ((q.thread_at ≡ ended) ⊎ ((r : Processor) × Step q r))
destroyed_ends created m n p q r h s =
    let v = Run-IsEnding r (initialize-IsEnding created) in
    let (d, l) = Run-left s v h in
    (omega (arith, left_bound p.thread_at), goes_on q.thread_at q refl (Run-IsEnding s v) d)

-- No frame of a list is empty.
abbrev pub AreFrames : List (List ℕ) → Type 0
AreFrames [] = Unit {0}
AreFrames (xs ∷ q) = (xs ≢ []) × AreFrames q

-- Where the thread gets from a state on its own.
record Delivers (origin p : Processor) (q : List (List ℕ)) : Type 0 where
  steps : ℕ
  final : Processor
  run : Run origin steps final
  no_queue : final.queue ≡ []
  all_delivered : final.delivered ≡ p.delivered ++ q
  same_fed : final.fed ≡ p.fed

take_running :
    (x : ℕ) (xs : List ℕ) (q : List (List ℕ)) (p : Processor)
    → p.is_running ≡ true
    → take_front (x ∷ xs) q p ≡ record p {
      queue = q;
      thread_at = calling (x ∷ xs);
      delivered = p.delivered ++ ((x ∷ xs) ∷ []);
    }
unfolding take_front
take_running x xs q p on = rw on

delivers :
    (q : List (List ℕ)) (origin p : Processor) (n : ℕ)
    → Run origin n p
    → p.queue ≡ q
    → AreFrames q
    → p.is_running ≡ true
    → p.thread_at ≡ waiting
    → Delivers origin p q
unfolding call_returns
delivers [] origin p n r e a on w = record {
  steps = n;
  final = p;
  run = r;
  no_queue = e;
  all_delivered = sym (append-nil p.delivered);
  same_fed = refl;
}
delivers ([] ∷ q) origin p n r e a on w = absurd (a.0 refl)
delivers ((x ∷ xs) ∷ q) origin p n r e a on w =
    let t = take_running x xs q p on in
    let taken = take_front (x ∷ xs) q p in
    let rest =
      delivers q origin (call_returns taken) (n + 1 + 1)
        (next (next r (takes (x ∷ xs) q w e))
          (returns (x ∷ xs) (ap (λ (c : Processor). c.thread_at) t)))
        (ap (λ (c : Processor). c.queue) t) a.1 (ap (λ (c : Processor). c.is_running) t ∙ on)
        refl in
    record {
      steps = rest.steps;
      final = rest.final;
      run = rest.run;
      no_queue = rest.no_queue;
      all_delivered =
          rest.all_delivered
          ∙ ap (λ (c : Processor). c.delivered ++ q) t
          ∙ append_assoc p.delivered ((x ∷ xs) ∷ []) q;
      same_fed = rest.same_fed ∙ ap (λ (c : Processor). c.fed) t;
    }

-- While the processor runs and its thread waits, the thread on its own can get to where the queue is
-- empty and the callback was called with every frame that was on it, in order and with nothing
-- more, if no vector on the queue is empty.
delivers_queue :
    (p : Processor)
    → AreFrames p.queue
    → p.is_running ≡ true
    → p.thread_at ≡ waiting
    → (n : ℕ) × (q : Processor) × Run p n q
      × (q.queue ≡ [])
      × (q.delivered ≡ p.delivered ++ p.queue)
      × (q.fed ≡ p.fed)
delivers_queue p a on w =
    let d = delivers p.queue p p 0 here refl a on w in
    (d.steps, d.final, d.run, d.no_queue, d.all_delivered, d.same_fed)
