-- ===== src/EventGroup/Waiting.antt =====
-- porting/freertos/event_groups.cc: which waits take which bits.
use xiaozhi_pc.Base.{
  ℕ, zero, suc, ◌≡◌, refl, Bool, true, false, ◌&&◌, [], ◌∷◌, arith, if◌then◌else◌, get_or, length,
  if_cases, replicate,
}
use xiaozhi_pc.EventGroup.{
  Bits, bits_and, bits_or, bits_not, bits_eq, is_set, set_bits, satisfied, end_wait,
}
use xiaozhi_pc.MainLoop.{MainLoop, wake, set_bit}

-- Two masks have no bit in common.
abbrev pub AreDisjoint : Bits → Bits → Type 0
AreDisjoint [] ys = Unit {0}
AreDisjoint (x ∷ xs) [] = Unit {0}
AreDisjoint (x ∷ xs) (y ∷ ys) = ((x && y) ≡ false) × AreDisjoint xs ys

bits_and_cleared :
    (bits mask other : Bits)
    → AreDisjoint mask other
    → length bits ≡ length mask
    → bits_and (bits_and bits (bits_not mask)) other ≡ bits_and bits other
unfolding bits_and bits_not
bits_and_cleared [] mask other d e = refl
bits_and_cleared (b ∷ bs) [] other d e = absurd (omega arith)
bits_and_cleared (b ∷ bs) (m ∷ ms) [] d e = refl
bits_and_cleared (b ∷ bs) (m ∷ ms) (o ∷ os) d e = ground (arith, bits_and_cleared bs ms os d.1, d.0)

-- Setting more bits keeps the condition of a wait.
is_set-bits_or :
    (bits more mask : Bits)
    → length bits ≡ length more
    → is_set (bits_and bits mask) ≡ true
    → is_set (bits_and (bits_or bits more) mask) ≡ true
unfolding bits_and bits_or is_set
is_set-bits_or [] more mask e h = absurd (ground (arith, h))
is_set-bits_or (b ∷ bs) [] mask e h = absurd (omega arith)
is_set-bits_or (b ∷ bs) (m ∷ ms) [] e h = absurd (ground (arith, h))
is_set-bits_or (b ∷ bs) (m ∷ ms) (x ∷ xs) e h = ground (arith, h, is_set-bits_or bs ms xs)

bits_eq-bits_or :
    (bits more mask : Bits)
    → length bits ≡ length more
    → bits_eq (bits_and bits mask) mask ≡ true
    → bits_eq (bits_and (bits_or bits more) mask) mask ≡ true
unfolding bits_and bits_or bits_eq
bits_eq-bits_or [] more mask e h = h
bits_eq-bits_or (b ∷ bs) [] mask e h = absurd (omega arith)
bits_eq-bits_or (b ∷ bs) (m ∷ ms) [] e h = h
bits_eq-bits_or (b ∷ bs) (m ∷ ms) (x ∷ xs) e h = ground (arith, h, bits_eq-bits_or bs ms xs)

satisfied-set_bits :
    (all : Bool) (bits more mask : Bits)
    → length bits ≡ length more
    → satisfied all mask bits ≡ true
    → satisfied all mask (set_bits more bits).1 ≡ true
unfolding satisfied set_bits
satisfied-set_bits true bits more mask e h = bits_eq-bits_or bits more mask e h
satisfied-set_bits false bits more mask e h = is_set-bits_or bits more mask e h

-- What a wait takes at its end is of no other wait's mask.
bits_and-end_wait :
    (clear : Bool) (mask other bits : Bits)
    → AreDisjoint mask other
    → length bits ≡ length mask
    → bits_and (end_wait clear mask bits).1 other ≡ bits_and bits other
unfolding end_wait
bits_and-end_wait clear mask other bits d e =
    if_cases (λ (x : Bits). bits_and x other ≡ bits_and bits other) (is_set (bits_and bits mask))
      (if clear then bits_and bits (bits_not mask) else bits) bits
      (λ t.
        if_cases (λ (x : Bits). bits_and x other ≡ bits_and bits other) clear
          (bits_and bits (bits_not mask)) bits (λ u. bits_and_cleared bits mask other d e)
          (λ u. refl))
      (λ t. refl)

-- A wait whose condition holds keeps it, whether it waits for any or for all of its bits, when
-- another thread sets bits, and when a wait for other bits comes to its end, by its condition or by its time, with or without clearing its bits.
pub satisfied_kept :
    (all clear : Bool) (mask other bits : Bits)
    → length bits ≡ length other
    → satisfied all mask bits ≡ true
    → (satisfied all mask (set_bits other bits).1 ≡ true)
      × (AreDisjoint other mask → satisfied all mask (end_wait clear other bits).1 ≡ true)
unfolding satisfied
satisfied_kept all clear mask other bits e h = (
  satisfied-set_bits all bits other mask e h,
  λ d. rw (bits_and-end_wait clear other mask bits d e) h,
)

-- `SCHEDULE_EVENT`
abbrev pub schedule_event : Bits
schedule_event = true ∷ replicate 63 false

bits_and-replicate : (bits : Bits) (n : ℕ) → is_set (bits_and bits (replicate n false)) ≡ false
unfolding bits_and is_set
bits_and-replicate [] n = refl
bits_and-replicate (b ∷ bs) zero = refl
bits_and-replicate (b ∷ bs) (suc n) = ground (arith, bits_and-replicate bs n)

-- The flag that `MainLoop` keeps for the group is its lowest bit, as long as the group has 64: the main loop's wait
-- ends when the flag is set, leaves it cleared, and `Schedule` sets it, whatever the other bits are.
pub schedule_event_lem :
    (bits : Bits) (others : ℕ) (m : MainLoop)
    → length bits ≡ 64
    → get_or bits 0 false ≡ m.schedule_event
    → (satisfied false schedule_event bits ≡ m.schedule_event)
      × (get_or (end_wait true schedule_event bits).1 0 false ≡ (wake m).schedule_event)
      × (get_or (set_bits schedule_event bits).1 0 false ≡ (set_bit others m).schedule_event)
unfolding satisfied end_wait set_bits wake set_bit bits_and bits_or bits_not is_set
schedule_event_lem [] others m e h = absurd (omega arith)
schedule_event_lem (true ∷ bs) others m e h = (h, refl, refl)
schedule_event_lem (false ∷ bs) others m e h = rw (bits_and-replicate bs 63) (h, refl, refl)
