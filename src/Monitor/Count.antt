-- ===== src/Monitor/Count.antt =====
-- How many of the threads stand at a place, by a weight of 0 or 1 for each place.
use multithreaded_chat_appli.Base.{arith, refl, suc, zero, ℕ, ℕ_discrete, ◌+◌, ◌<◌, ◌≡◌, ◌≢◌, ◌≤◌}
use multithreaded_chat_appli.Monitor.{move}

module _ {P : Type 0} (w : P → ℕ) where
  pub count : ℕ → (ℕ → P) → ℕ
  count zero place = 0
  count (suc n) place = w (place n) + count n place

  count-move_above :
      (n i : ℕ) (place : ℕ → P) (p : P) → n ≤ i → count n (move place i p) ≡ count n place
  unfolding count
  count-move_above zero i place p h = refl
  count-move_above (suc n) i place p h = ground (arith, count-move_above n i place p)

  -- A move of one thread changes the count by that thread's weights.
  pub count-move :
      (n i : ℕ) (place : ℕ → P) (p : P)
      → i < n
      → count n (move place i p) + w (place i) ≡ count n place + w p
  unfolding count
  count-move zero i place p h = absurd (omega arith)
  count-move (suc n) i place p h = elim (ℕ_discrete n i) [
    | yes here ↦ ground (arith, count-move_above n i place p)
    | no there ↦ ground (arith, count-move n i place p)
  ]

  pub weight-le-count : (n i : ℕ) (place : ℕ → P) → i < n → w (place i) ≤ count n place
  unfolding count
  weight-le-count zero i place h = absurd (omega arith)
  weight-le-count (suc n) i place h = elim (ℕ_discrete n i) [
    | yes here ↦ ground arith
    | no there ↦ omega (arith, weight-le-count n i place (omega arith))
  ]

  -- Two threads count twice.
  pub weights-le-count :
      (n i j : ℕ) (place : ℕ → P)
      → i < n
      → j < n
      → i ≢ j
      → w (place i) + w (place j) ≤ count n place
  unfolding count
  weights-le-count zero i j place hi hj ne = absurd (omega arith)
  weights-le-count (suc n) i j place hi hj ne = elim (ℕ_discrete n i) [
    | yes here ↦ ground (arith, weight-le-count n j place)
    | no there ↦ elim (ℕ_discrete n j) [
      | yes here ↦ ground (arith, weight-le-count n i place)
      | no far ↦ omega (arith, weights-le-count n i j place (omega arith) (omega arith) ne)
    ]
  ]

  pub count-ext :
      (n : ℕ) (place place' : ℕ → P)
      → ((j : ℕ) → w (place' j) ≡ w (place j))
      → count n place' ≡ count n place
  unfolding count
  count-ext zero place place' e = refl
  count-ext (suc n) place place' e = omega (arith, e n, count-ext n place place' e)

  pub count-none : (n : ℕ) (place : ℕ → P) → ((j : ℕ) → j < n → w (place j) ≡ 0) → count n place ≡ 0
  unfolding count
  count-none zero place e = refl
  count-none (suc n) place e =
      omega (arith, e n (omega arith), count-none n place (λ j h. e j (omega arith)))

  pub count-zero : (n : ℕ) (p : P) → w p ≡ 0 → count n (λ _. p) ≡ 0
  unfolding count
  count-zero zero p e = refl
  count-zero (suc n) p e = omega (arith, e, count-zero n p e)

  pub count-le : ((p : P) → w p ≤ 1) → (n : ℕ) (place : ℕ → P) → count n place ≤ n
  unfolding count
  count-le h zero place = omega arith
  count-le h (suc n) place = omega (arith, h (place n), count-le h n place)

  -- Of threads that count, one.
  pub some_weight :
      (n : ℕ) (place : ℕ → P) → 0 < count n place → (j : ℕ) × (j < n) × (0 < w (place j))
  unfolding count
  some_weight zero place h = absurd (omega arith)
  some_weight (suc n) place h = elim (ℕ_discrete (w (place n)) 0) [
    | yes weightless ↦ let (j, lt, b) = some_weight n place (omega arith) in (j, omega arith, b)
    | no b ↦ (n, omega arith, omega arith)
  ]

pub count-add :
    {P : Type 0} (v w : P → ℕ) (n : ℕ) (place : ℕ → P)
    → count v n place + count w n place ≡ count (λ p. v p + w p) n place
unfolding count
count-add v w zero place = refl
count-add v w (suc n) place = omega (arith, count-add v w n place)
