-- ===== src/AudioProcessor/Frames.antt =====
-- porting/impl/sdl_audio_processor.cc: what reaches the callback.
use xiaozhi_pc.Base.{
  ℕ, ◌≡◌, refl, ap, sym, subst, Bool, List, [], ◌∷◌, ◌++◌, append_assoc, append-nil, inl, inr,
  Bool-cases,
}
use xiaozhi_pc.Base.Sublist.{
  Sublist, none_left, left_out, kept, Sublist-nil, Sublist-append, Sublist-refl, Sublist-behind,
}
use xiaozhi_pc.AudioProcessor.{
  Processor, initialize, feed, start, stop, take_front, call_returns, destroy, Step, feeds, starts,
  stops, takes, returns, destroys, Run, here, next,
}

-- The frames on the queue; an empty vector is none.
frames : List (List ℕ) → List (List ℕ)
frames [] = []
frames ([] ∷ q) = frames q
frames ((x ∷ xs) ∷ q) = (x ∷ xs) ∷ frames q

frames-append : (q r : List (List ℕ)) → frames (q ++ r) ≡ frames q ++ frames r
unfolding frames
frames-append [] r = refl
frames-append ([] ∷ q) r = frames-append q r
frames-append ((x ∷ xs) ∷ q) r = ap (◌∷◌ (x ∷ xs)) (frames-append q r)

frames_Sublist : (q : List (List ℕ)) → Sublist (frames q) q
unfolding frames
frames_Sublist [] = none_left
frames_Sublist ([] ∷ q) = left_out (frames_Sublist q)
frames_Sublist ((x ∷ xs) ∷ q) = kept (frames_Sublist q)

IsOrdered : Processor → Type 0
unfolding frames
IsOrdered p = Sublist (p.delivered ++ frames p.queue) p.fed

feed-IsOrdered : (xs : List ℕ) (p : Processor) → IsOrdered p → IsOrdered (feed xs p)
unfolding IsOrdered feed
feed-IsOrdered xs p v = elim (Bool-cases p.has_thread) [
  | inl has ↦
      rw
        (
          has,
          frames-append p.queue (xs ∷ []),
          sym (append_assoc p.delivered (frames p.queue) (frames (xs ∷ []))),
        )
        (Sublist-append v (frames_Sublist (xs ∷ [])))
  | inr none ↦ rw none v
]

take_front-IsOrdered :
    (xs : List ℕ) (rest : List (List ℕ)) (p : Processor)
    → p.queue ≡ xs ∷ rest
    → IsOrdered p
    → IsOrdered (take_front xs rest p)
unfolding IsOrdered take_front frames
take_front-IsOrdered [] rest p e v = rw e at v
take_front-IsOrdered (x ∷ xs) rest p e v = elim (Bool-cases p.is_running) [
  | inl on ↦ rw (on, append_assoc p.delivered ((x ∷ xs) ∷ []) (frames rest)) (rw e at v)
  | inr off ↦
      rw off (Sublist-behind p.delivered (left_out (Sublist-refl (frames rest))) (rw e at v))
]

destroy-IsOrdered : (p : Processor) → IsOrdered p → IsOrdered (destroy p)
unfolding IsOrdered destroy frames
destroy-IsOrdered p v = elim (Bool-cases p.has_thread) [
  | inl has ↦ rw has (Sublist-behind p.delivered (Sublist-nil (frames p.queue)) v)
  | inr none ↦ rw none v
]

Step-IsOrdered : {p q : Processor} → Step p q → IsOrdered p → IsOrdered q
unfolding IsOrdered start stop call_returns
Step-IsOrdered {p} (feeds xs d) v = feed-IsOrdered xs p v
Step-IsOrdered (starts d) v = v
Step-IsOrdered (stops d) v = v
Step-IsOrdered {p} (takes xs rest t e) v = take_front-IsOrdered xs rest p e v
Step-IsOrdered (returns xs t) v = v
Step-IsOrdered {p} (destroys d) v = destroy-IsOrdered p v

Run-IsOrdered : {p q : Processor} {n : ℕ} → Run p n q → IsOrdered p → IsOrdered q
Run-IsOrdered here v = v
Run-IsOrdered (next r s) v = Step-IsOrdered s (Run-IsOrdered r v)

initialize-IsOrdered : (created : Bool) → IsOrdered (initialize created)
unfolding IsOrdered initialize frames
initialize-IsOrdered created = none_left

-- In any interleaving, what the callback was called with is what was fed with some frames left out:
-- the order is that of feeding, and no frame comes twice.
pub delivered-Sublist :
    (created : Bool) (n : ℕ) (p : Processor)
    → Run (initialize created) n p
    → Sublist p.delivered p.fed
unfolding IsOrdered
delivered-Sublist created n p r =
    subst (λ l. Sublist l p.fed) (append-nil p.delivered)
      (Sublist-behind p.delivered (Sublist-nil (frames p.queue))
        (Run-IsOrdered r (initialize-IsOrdered created)))
