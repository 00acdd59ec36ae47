-- ===== src/EventGroup.antt =====
-- porting/freertos/event_groups.cc: a group of event bits, which threads set and wait for. The bits of
-- an `EventBits_t` are a list, the lowest first; every list has the same length, 64 in the program.
-- A call is one section under the mutex, at the time at which its wait ends.
pub mod Waiting
use xiaozhi_pc.Base.{Bool, true, false, not, ◌&&◌, ◌||◌, List, [], ◌∷◌, if◌then◌else◌, replicate}

abbrev pub Bits : Type 0
Bits = List Bool

unfoldable pub bits_and : Bits → Bits → Bits
bits_and [] ys = []
bits_and (x ∷ xs) [] = []
bits_and (x ∷ xs) (y ∷ ys) = (x && y) ∷ bits_and xs ys

unfoldable pub bits_or : Bits → Bits → Bits
bits_or [] ys = []
bits_or (x ∷ xs) [] = []
bits_or (x ∷ xs) (y ∷ ys) = (x || y) ∷ bits_or xs ys

unfoldable pub bits_not : Bits → Bits
bits_not [] = []
bits_not (x ∷ xs) = not x ∷ bits_not xs

-- `bits != 0`
unfoldable pub is_set : Bits → Bool
is_set [] = false
is_set (x ∷ xs) = x || is_set xs

unfoldable pub bits_eq : Bits → Bits → Bool
bits_eq [] [] = true
bits_eq (x ∷ xs) (y ∷ ys) = (if x then y else not y) && bits_eq xs ys
bits_eq _ _ = false

-- `xEventGroupCreate`
unfoldable pub create : Bits
create = replicate 64 false

-- `xEventGroupSetBits`: the value returned, and the group.
unfoldable pub set_bits : Bits → Bits → Bits × Bits
unfolding bits_or
set_bits mask bits = (bits_or bits mask, bits_or bits mask)

-- The condition that `xEventGroupWaitBits` waits for.
unfoldable pub satisfied : Bool → Bits → Bits → Bool
unfolding bits_and is_set bits_eq
satisfied all mask bits =
    if all then bits_eq (bits_and bits mask) mask else is_set (bits_and bits mask)

-- The end of `xEventGroupWaitBits`, when the condition holds or the time is over.
unfoldable pub end_wait : Bool → Bits → Bits → Bits × Bits
unfolding bits_and bits_not is_set
end_wait clear mask bits = (
  bits,
  if is_set (bits_and bits mask)
      then (if clear then bits_and bits (bits_not mask) else bits)
      else bits,
)
