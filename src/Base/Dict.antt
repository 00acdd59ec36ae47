-- ===== src/Base/Dict.antt =====
-- `std::unordered_map` with text keys, as an association list. The order of the list stands for
-- the order in which the table is iterated, which C++ leaves open.
use mathlib.Core.Path.{◌≡◌, refl}
use mathlib.Core.Option.{Option, none, some}
use mathlib.Core.List.{List, [], ◌∷◌}
use native.Mathlib.Omega.{arith}
use xiaozhi_pc.Base.Tests.{if◌then◌else◌}
use xiaozhi_pc.Base.Text.{Bytes, text_eq, text_eq_iff}

abbrev pub Dict {ℓ} : Type ℓ → Type ℓ
Dict V = List (Bytes × V)

module _ {ℓ} {V : Type ℓ} where
  -- `m.find(k)`
  unfoldable pub lookup : Bytes → Dict V → Option V
  lookup k [] = none
  lookup k ((j, v) ∷ m) = if text_eq j k then some v else lookup k m

  -- `m[k] = v`
  unfoldable pub insert : Bytes → V → Dict V → Dict V
  insert k v [] = (k, v) ∷ []
  insert k v ((j, w) ∷ m) = if text_eq j k then (j, v) ∷ m else (j, w) ∷ insert k v m

  -- `m.emplace(k, v)`, which leaves an entry that is there as it is
  unfoldable pub emplace : Bytes → V → Dict V → Dict V
  emplace k v [] = (k, v) ∷ []
  emplace k v ((j, w) ∷ m) = if text_eq j k then (j, w) ∷ m else (j, w) ∷ emplace k v m

  -- `m.erase(k)`
  unfoldable pub erase : Bytes → Dict V → Dict V
  erase k [] = []
  erase k ((j, w) ∷ m) = let rest = erase k m in if text_eq j k then rest else (j, w) ∷ rest

  pub lookup-insert :
      (j k : Bytes) (v : V) (m : Dict V)
      → lookup j (insert k v m) ≡ (if text_eq k j then some v else lookup j m)
  unfolding lookup insert
  lookup-insert j k v [] = refl
  lookup-insert j k v ((i, w) ∷ m) =
      ground (arith, text_eq_iff i k, text_eq_iff i j, text_eq_iff k j, lookup-insert j k v m)

  pub lookup-emplace-none :
      (j k : Bytes) (v : V) (m : Dict V)
      → lookup k m ≡ none
      → lookup j (emplace k v m) ≡ (if text_eq k j then some v else lookup j m)
  unfolding lookup emplace
  lookup-emplace-none j k v [] h = refl
  lookup-emplace-none j k v ((i, w) ∷ m) h =
      ground (arith, text_eq_iff i k, text_eq_iff i j, text_eq_iff k j, lookup-emplace-none j k v m)

  pub emplace-some :
      (k : Bytes) (v : V) (m : Dict V) (old : V) → lookup k m ≡ some old → emplace k v m ≡ m
  unfolding lookup emplace
  emplace-some k v [] old h = ground arith
  emplace-some k v ((i, w) ∷ m) old h = ground (arith, emplace-some k v m old)

  pub lookup-erase :
      (j k : Bytes) (m : Dict V) → lookup j (erase k m) ≡ (if text_eq k j then none else lookup j m)
  unfolding lookup erase
  lookup-erase j k [] = ground arith
  lookup-erase j k ((i, w) ∷ m) =
      ground (arith, text_eq_iff i k, text_eq_iff i j, text_eq_iff k j, lookup-erase j k m)

  -- No key stands twice: what the table's own methods keep.
  abbrev pub NodupKeys : Dict V → Type ℓ
  NodupKeys [] = Unit
  NodupKeys ((k, _) ∷ m) = (lookup k m ≡ none) × NodupKeys m
