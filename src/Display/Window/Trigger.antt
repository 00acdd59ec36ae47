-- ===== src/Display/Window/Trigger.antt =====
-- porting/impl/ui_thread.cc: where `AudioDisplay` begins to draw while the output is enabled, as a
-- trigger: at the steepest fall through zero among the last thousand samples.
use xiaozhi_pc.Base.{
  ℕ, zero, suc, ◌+◌, ◌-◌, ◌%◌, ◌<◌, ◌≡◌, ◌≢◌, refl, ap, sym, subst, ◌∙◌, ◌⊎◌, Bool, true, false,
  ◌&&◌, some, [], ◌∷◌, List, inl, inr, if◌then◌else◌, arith, ltb, length, get_or, get_elem?,
  Bool-cases, if_cases,
}
use xiaozhi_pc.Base.Order.{less_asym, less_irrefl, less_of_not}
use native.Mathlib.Nat.{mod-eq_of_lt}
use xiaozhi_pc.Base.Int.{ℤ, pos, negsuc, sub_nat, int16, less, sub_int}
use xiaozhi_pc.Display.Window.{
  compute_mod, signs_differ, search_round, search, int_min, delay, start_index,
}

-- The sample at an index that is taken round the array.
unfoldable pub sample_at : List ℕ → ℕ → ℤ
sample_at array k = int16 (get_or array (k % length array) 0)

-- The position that is `i` samples before `x`.
abbrev pub behind : List ℕ → ℕ → ℕ → ℕ
behind array x i = (length array + x - i) % length array

-- How much the signal falls in the ten samples from a position, and whether it changes its sign in
-- the middle of them.
abbrev pub fall : List ℕ → ℕ → ℤ
fall array p = sub_int (sample_at array p) (sample_at array (p + 9))

abbrev pub crosses : List ℕ → ℕ → Bool
crosses array p = signs_differ (sample_at array (p + 4)) (sample_at array (p + 5))

-- `p` is the first position with the greatest fall among the first `n` ones that cross zero, or `x` if none does.
abbrev pub IsTrigger : List ℕ → ℕ → ℕ → ℕ → Type 0
IsTrigger array x n p =
    ((p ≡ x) × ((i : ℕ) → i < n → crosses array (behind array x i) ≡ false))
    ⊎ ((k : ℕ) × (k < n)
        × (p ≡ behind array x k)
        × (crosses array p ≡ true)
        × ((i : ℕ)
            → i < n
            → crosses array (behind array x i) ≡ true
            → less (fall array p) (fall array (behind array x i)) ≡ false)
        × ((i : ℕ)
            → i < k
            → crosses array (behind array x i) ≡ true
            → less (fall array (behind array x i)) (fall array p) ≡ true))

get_elem?-get_or : (xs : List ℕ) (i : ℕ) → i < length xs → get_elem? xs i ≡ some (get_or xs i 0)
get_elem?-get_or [] i h = absurd (omega arith)
get_elem?-get_or (x ∷ xs) zero h = refl
get_elem?-get_or (x ∷ xs) (suc i) h = get_elem?-get_or xs i (omega arith)

true-ne-false : true ≢ false
true-ne-false e = ground arith

and_true : (b : Bool) → (b && true) ≡ b
and_true true = refl
and_true false = refl

-- A sample of 16 bits.
data IsSmall : ℤ → Type 0 where
  is_pos : (n : ℕ) → n < 32768 → IsSmall (pos n)
  is_neg : (n : ℕ) → n < 32768 → IsSmall (negsuc n)

sample_at-IsSmall : (array : List ℕ) (k : ℕ) → IsSmall (sample_at array k)
unfolding sample_at int16
sample_at-IsSmall array k =
    let s = get_or array (k % length array) 0 in
    if_cases IsSmall (ltb (s % 65536) 32768) (pos (s % 65536)) (negsuc (65535 - s % 65536))
      (λ t. is_pos (s % 65536) (ground arith)) (λ t. is_neg (65535 - s % 65536) (ground arith))

less-int_min : (a b : ℤ) → IsSmall a → IsSmall b → less int_min (sub_int a b) ≡ true
unfolding less sub_int sub_nat
less-int_min a b (is_pos m h) (is_pos n k) = ground arith
less-int_min a b (is_pos m h) (is_neg n k) = ground arith
less-int_min a b (is_neg m h) (is_pos n k) = ground arith
less-int_min a b (is_neg m h) (is_neg n k) = ground arith

sample_at_read :
    (array : List ℕ) (k : ℕ)
    → 0 < length array
    → (a : ℕ) × (get_elem? array (k % length array) ≡ some a) × (sample_at array k ≡ int16 a)
unfolding sample_at
sample_at_read array k h = (
  get_or array (k % length array) 0,
  get_elem?-get_or array (k % length array) (omega arith),
  refl,
)

search_round_lem :
    (array : List ℕ) (x i p : ℕ) (h : ℤ)
    → 0 < length array
    → let idx = behind array x i in
      search_round array x i (h, p)
      ≡ some
          (if less h (fall array idx) && crosses array idx then (fall array idx, idx) else (h, p))
unfolding search_round
search_round_lem array x i p h lt =
    let n = length array in
    let idx = behind array x i in
    let (a, ea, fa) = sample_at_read array idx lt in
    let (b, eb, fb) = sample_at_read array (idx + 4) lt in
    let (c, ec, fc) = sample_at_read array (idx + 5) lt in
    let (d, ed, fd) = sample_at_read array (idx + 9) lt in
    let inside : idx % n ≡ idx = mod-eq_of_lt (omega arith) in
    let ea' = ap (get_elem? array) (sym inside) ∙ ea in rw (ea', eb, ec, ed, fa, fb, fc, fd) refl

-- The score so far and the position that it belongs to.
abbrev Best : List ℕ → ℕ → ℕ → ℤ × ℕ → Type 0
Best array x n (h, p) =
    ((p ≡ x) × (h ≡ int_min) × ((i : ℕ) → i < n → crosses array (behind array x i) ≡ false))
    ⊎ ((k : ℕ) × (k < n)
        × (p ≡ behind array x k)
        × (h ≡ fall array p)
        × (crosses array p ≡ true)
        × ((i : ℕ)
            → i < n
            → crosses array (behind array x i) ≡ true
            → less h (fall array (behind array x i)) ≡ false)
        × ((i : ℕ)
            → i < k
            → crosses array (behind array x i) ≡ true
            → less (fall array (behind array x i)) h ≡ true))

module _ (array : List ℕ) (x n : ℕ) where
  -- A property of the first `n` numbers and of `n` holds of the first `n + 1`.
  next {ℓ} : (P : ℕ → Type ℓ) → ((i : ℕ) → i < n → P i) → P n → (i : ℕ) → i < n + 1 → P i
  next P f g i lt = elim (Bool-cases (ltb i n)) [
    | inl t ↦ f i (ground arith)
    | inr t ↦ subst P (ground arith) g
  ]

  Best-kept :
      (h : ℤ) (p : ℕ)
      → Best array x n (h, p)
      → (less h (fall array (behind array x n)) && crosses array (behind array x n)) ≡ false
      → Best array x (n + 1) (h, p)
  Best-kept h p (inl (a, b, none)) e =
      let q = behind array x n in
      let steep : less h (fall array q) ≡ true = rw b (
        less-int_min (sample_at array q) (sample_at array (q + 9)) (sample_at-IsSmall array q)
          (sample_at-IsSmall array (q + 9))) in
      inl (a, b, next (λ i. crosses array (behind array x i) ≡ false) none (rw steep at e))
  Best-kept h p (inr (k, lt, a, b, c, max, first)) e = inr (
    k,
    omega arith,
    a,
    b,
    c,
    next
        (λ i.
          crosses array (behind array x i) ≡ true → less h (fall array (behind array x i)) ≡ false)
        max (λ t. rw (t, and_true) at e),
    first,
  )

  earlier :
      (h : ℤ) (p : ℕ)
      → Best array x n (h, p)
      → less h (fall array (behind array x n)) ≡ true
      → (i : ℕ) → i < n
      → crosses array (behind array x i) ≡ true
      → less (fall array (behind array x i)) (fall array (behind array x n)) ≡ true
  earlier h p (inl (a, b, none)) e i lt t = absurd (true-ne-false (sym t ∙ none i lt))
  earlier h p (inr (k, l, a, b, c, max, first)) e i lt t =
      less_of_not (fall array (behind array x i)) h (fall array (behind array x n)) (max i lt t) e

  Best-taken :
      (h : ℤ) (p : ℕ)
      → Best array x n (h, p)
      → less h (fall array (behind array x n)) ≡ true
      → crosses array (behind array x n) ≡ true
      → Best array x (n + 1) (fall array (behind array x n), behind array x n)
  Best-taken h p b e t =
      let q = behind array x n in
      inr (
        n,
        omega arith,
        refl,
        refl,
        t,
        next
            (λ i.
              crosses array (behind array x i) ≡ true
              → less (fall array q) (fall array (behind array x i)) ≡ false)
            (λ i lt u.
              less_asym (fall array (behind array x i)) (fall array q) (earlier h p b e i lt u))
            (λ u. less_irrefl (fall array q)),
        earlier h p b e,
      )

  search_round-Best :
      (h : ℤ) (p : ℕ)
      → 0 < length array
      → Best array x n (h, p)
      → (q : ℤ × ℕ) × (search_round array x n (h, p) ≡ some q) × Best array x (n + 1) q
  search_round-Best h p lt b =
      let q = behind array x n in
      let e = search_round_lem array x n p h lt in
      elim (Bool-cases (less h (fall array q) && crosses array q)) [
        | inl t ↦ ((fall array q, q), e ∙ rw t refl, Best-taken h p b (ground arith) (ground arith))
        | inr t ↦ ((h, p), e ∙ rw t refl, Best-kept h p b t)
      ]

search-Best :
    (array : List ℕ) (x left n : ℕ) (q : ℤ × ℕ)
    → 0 < length array
    → Best array x n q
    → (h : ℤ) × (p : ℕ) × (search array x left n q ≡ some p) × Best array x (n + left) (h, p)
unfolding search
search-Best array x zero n (h, p) lt b =
    (h, p, refl, subst (λ (m : ℕ). Best array x m (h, p)) (omega arith) b)
search-Best array x (suc left) n (h, p) lt b =
    let (q, e, b') = search_round-Best array x n h p lt b in
    let (h', p', e', b'') = search-Best array x left (n + 1) q lt b' in
    (h', p', rw e e', subst (λ (m : ℕ). Best array x m (h', p')) (omega arith) b'')

Best-IsTrigger :
    (array : List ℕ) (x n p : ℕ) (h : ℤ) → Best array x n (h, p) → IsTrigger array x n p
Best-IsTrigger array x n p h (inl (a, b, none)) = inl (a, none)
Best-IsTrigger array x n p h (inr (k, lt, a, b, c, max, first)) =
    inr (k, lt, a, c, rw b at max, rw b at first)

-- While the output is enabled, `AudioDisplay` begins to draw at the position with the steepest fall, the
-- first of them if there are several, among the thousand positions behind the one that lies `delay` samples before the
-- index, as far as the signal crosses zero there, and at that one if it does so nowhere.
pub start_index-IsTrigger :
    (array : List ℕ) (index : ℕ)
    → 0 < length array
    → let x = compute_mod (sub_nat index delay) (length array) in
      (p : ℕ) × (start_index true array index ≡ some p) × IsTrigger array x 1000 p
unfolding start_index
start_index-IsTrigger array index lt =
    let x = compute_mod (sub_nat index delay) (length array) in
    let (h, p, e, b) =
      search-Best array x 1000 0 (int_min, x) lt (inl (refl, refl, λ i l. absurd (omega arith))) in
    (p, e, Best-IsTrigger array x 1000 p h b)
