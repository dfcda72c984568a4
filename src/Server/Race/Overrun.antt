-- ===== src/Server/Race/Overrun.antt =====
-- How far the count of the history can go.
use multithreaded_chat_appli.Base.{
  ap, arith, if◌then◌else◌, ltb, refl, suc, sym, true, zero, ℕ, ℕ_discrete, ◌+◌, ◌-◌, ◌<◌, ◌∙◌, ◌≡◌,
  ◌≢◌, ◌≤◌,
}
use mathlib.Core.Path.{subst}
use multithreaded_chat_appli.Monitor.{move}
use multithreaded_chat_appli.Monitor.Count.{
  count, count-move, count-zero, weight-le-count, count-le,
}
use multithreaded_chat_appli.Server.{max_msgs}
use multithreaded_chat_appli.Server.Race.{
  Place, away, passed, kept, History, Step, test, store, increment, no_history, Reach, here, next,
  Overruns,
}

abbrev inside : Place → ℕ
inside away = 0
inside passed = 1
inside kept = 1

-- The count and the threads behind the test.
abbrev sum : ℕ → History → ℕ
sum n s = s.chat_historyc + count inside n s.place

inside_once : (p : Place) → inside p ≤ 1
inside_once away = omega arith
inside_once passed = omega arith
inside_once kept = omega arith

Step-sum : {n : ℕ} {s t : History} → Step n s t → sum n s < max_msgs + n → sum n t < max_msgs + n
Step-sum {n} {s} (test i lt e) h = ground (
  arith,
  count-move inside n i s.place passed lt,
  count-move inside n i s.place away lt,
  count-le inside inside_once n (move s.place i passed),
)
Step-sum {n} {s} (store i lt e) h = ground (arith, count-move inside n i s.place kept lt)
Step-sum {n} {s} (increment i lt e) h = ground (arith, count-move inside n i s.place away lt)

Reach-sum : {n : ℕ} {s : History} → Reach n no_history s → sum n s < max_msgs + n
unfolding no_history
Reach-sum {n} here = omega (arith, count-zero inside n away refl)
Reach-sum (next r st) = Step-sum st (Reach-sum r)

-- In every reachable state of any number of threads of `say`, a thread that is about to store in
-- the history does so below index 99 and the number of threads, whatever their order: one thread
-- alone stays inside the array.
pub count_bounded :
    {n : ℕ} {s : History}
    → Reach n no_history s
    → (i : ℕ) → i < n
    → s.place i ≡ passed
    → s.chat_historyc < max_msgs + n - 1
count_bounded {n} {s} r i lt e = ground (arith, Reach-sum r, weight-le-count inside n i s.place lt)

move-here : (place : ℕ → Place) (i : ℕ) (p : Place) → move place i p i ≡ p
move-here place i p = ground arith

move-there : (place : ℕ → Place) (i j : ℕ) (p : Place) → i ≢ j → move place i p j ≡ place j
move-there place i j p h = ground arith

-- The test of a thread while there is room.
tests :
    {n : ℕ} {s : History} (i : ℕ)
    → i < n
    → Reach n no_history s
    → s.place i ≡ away
    → s.chat_historyc < max_msgs
    → Reach n no_history (record s { place = move s.place i passed })
tests {n} {s} i lt r e room =
    let open_slot : ltb s.chat_historyc max_msgs ≡ true = ground arith in
    subst
      (λ b. Reach n no_history (record s { place = move s.place i (if b then passed else away) }))
      open_slot (next r (test i lt e))

-- A whole `say` of one thread.
says :
    {n : ℕ} {s : History} (i : ℕ)
    → i < n
    → Reach n no_history s
    → s.place i ≡ away
    → s.chat_historyc < max_msgs
    → (t : History) × Reach n no_history t
      × (t.chat_historyc ≡ s.chat_historyc + 1)
      × (t.place i ≡ away)
      × ((j : ℕ) → i ≢ j → t.place j ≡ s.place j)
says {n} {s} i lt r e room =
    let in_test = move s.place i passed in
    let in_store = move in_test i kept in
    (
      record { chat_historyc = s.chat_historyc + 1; place = move in_store i away },
      next (next (tests i lt r e room) (store i lt (move-here s.place i passed)))
          (increment i lt (move-here in_test i kept)),
      refl,
      move-here in_store i away,
      λ j h.
          move-there in_store i j away h
          ∙ move-there in_test i j kept h
          ∙ move-there s.place i j passed h,
    )

-- One thread alone fills `k` slots.
fills :
    (n k : ℕ)
    → k ≤ max_msgs
    → (s : History) × Reach (suc n) no_history s
      × (s.chat_historyc ≡ k)
      × ((i : ℕ) → s.place i ≡ away)
unfolding no_history
fills n zero h = (_, here, refl, λ i. refl)
fills n (suc k) h =
    let (s, r, e, idle) = fills n k (omega arith) in
    let (t, r', e', here_too, others) = says 0 (omega arith) r (idle 0) (omega arith) in
    (
      t,
      r',
      omega (arith, e', e),
      λ i. elim (ℕ_discrete 0 i) [
        | yes same_thread ↦ ap t.place (sym same_thread) ∙ here_too
        | no other ↦ others i other ∙ idle i
      ],
    )

-- With at least two threads of `say`, some reachable state has the second about to store behind
-- the end of the history: its test and its store are not one step.
pub two_overrun : (n : ℕ) → (s : History) × Reach (suc (suc n)) no_history s × Overruns s 1
two_overrun n =
    let (s, r, e, idle) = fills (suc n) 99 (omega arith) in
    let tested = tests 1 (omega arith) r (idle 1) (omega arith) in
    let (t, r', e', _, others) =
      says 0 (omega arith) tested (move-there s.place 1 0 passed (omega arith) ∙ idle 0)
        (omega (arith, e)) in
    (t, r', (others 1 (omega arith) ∙ move-here s.place 1 passed, omega (arith, e', e)))
