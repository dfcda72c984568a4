-- ===== src/Monitor/Signals.antt =====
-- The signals of the check-outs, and the writers that sleep.
use multithreaded_chat_appli.Base.{
  ap, arith, inl, inr, refl, ℕ, ℕ_discrete, ◌+◌, ◌-◌, ◌<◌, ◌≡◌, ◌≢◌, ◌≤◌, ◌⊎◌,
}
use multithreaded_chat_appli.Monitor.{
  Place, outside, reading, writing, reader_asleep, reader_woken, writer_asleep, writer_woken,
  Monitor, Signal, one_writer, System, Step, read_in, wake_reader, read_again, read_out, write_in,
  wake_writer, write_again, write_out, Reach, here, next, move, reader_checkin, reader_wake,
  reader_checkout, writer_checkin, writer_wake, writer_checkout, reader_must_wait, writer_must_wait,
  start, monitor_init, Delivers, nobody, a_writer, no_writer, the_readers, rouse,
}
use multithreaded_chat_appli.Monitor.Count.{
  count, count-move, count-zero, count-none, count-ext, weight-le-count, some_weight,
}
use multithreaded_chat_appli.Monitor.Safety.{reads, writes, Reach-Inv}

abbrev sleeps : Place → ℕ
sleeps writer_asleep = 1
sleeps _ = 0

abbrev wakes : Place → ℕ
wakes writer_woken = 1
wakes _ = 0

awake : (p : Place) → p ≢ writer_asleep → sleeps p ≡ 0
awake writer_asleep ne = absurd (ne refl)
awake outside ne = refl
awake reading ne = refl
awake writing ne = refl
awake reader_asleep ne = refl
awake reader_woken ne = refl
awake writer_woken ne = refl

rouse-sleeps : (p : Place) → (sleeps (rouse p) ≡ sleeps p) × (wakes (rouse p) ≡ wakes p)
rouse-sleeps reader_asleep = (refl, refl)
rouse-sleeps outside = (refl, refl)
rouse-sleeps reading = (refl, refl)
rouse-sleeps writing = (refl, refl)
rouse-sleeps reader_woken = (refl, refl)
rouse-sleeps writer_asleep = (refl, refl)
rouse-sleeps writer_woken = (refl, refl)

-- No writer sleeps, or one is woken.
Answered : ℕ → (ℕ → Place) → Type 0
Answered n place = (count sleeps n place ≡ 0) ⊎ (0 < count wakes n place)

fewer_sleep :
    {n : ℕ} {place left : ℕ → Place} {signal : Signal}
    → Delivers n place signal left
    → count sleeps n left ≤ count sleeps n place
fewer_sleep nobody = omega arith
fewer_sleep {n} {place} (a_writer j lt e) =
    omega (arith, count-move sleeps n j place writer_woken lt)
fewer_sleep (no_writer e) = omega arith
fewer_sleep {n} {place} the_readers =
    omega (arith, count-ext sleeps n place (λ j. rouse (place j)) (λ j. (rouse-sleeps (place j)).0))

Delivers-Answered :
    {n : ℕ} {place left : ℕ → Place} {signal : Signal}
    → Delivers n place signal left
    → signal ≡ one_writer
    → Answered n left
unfolding Answered
Delivers-Answered nobody q = absurd cc
Delivers-Answered {n} {place} (a_writer j lt e) q =
    inr (ground (arith, weight-le-count wakes n j (move place j writer_woken) lt))
Delivers-Answered {n} {place} (no_writer e) q =
    inl (count-none sleeps n place (λ j h. awake (place j) (e j h)))
Delivers-Answered the_readers q = absurd cc

-- Every writer that sleeps is counted as waiting, and while one sleeps somebody is in or a writer
-- is woken.
record Attended (n : ℕ) (s : System) : Type 0 where
  counted : count sleeps n s.place ≤ s.monitor.waiting_writers
  hope : (0 < s.monitor.active_readers + s.monitor.active_writers) ⊎ Answered n s.place

-- Behind a check-out: somebody is in, a writer is signalled, or none has ever waited.
CheckedOut : Signal → Monitor → Type 0
CheckedOut signal m =
    (0 < m.active_readers + m.active_writers) ⊎ ((signal ≡ one_writer) ⊎ (m.waiting_writers ≡ 0))

reader_checkout-CheckedOut : (m : Monitor) → CheckedOut (reader_checkout m).0 (reader_checkout m).1
unfolding reader_checkout CheckedOut
reader_checkout-CheckedOut m = elim (ℕ_discrete m.waiting_writers 0) [
  | yes nobody_waits ↦ inr (inr nobody_waits)
  | no somebody_waits ↦ elim (ℕ_discrete (m.active_readers - 1) 0) [
    | yes last ↦ inr (inl (ground arith))
    | no others ↦ inl (omega arith)
  ]
]

writer_checkout-CheckedOut : (m : Monitor) → CheckedOut (writer_checkout m).0 (writer_checkout m).1
unfolding writer_checkout CheckedOut
writer_checkout-CheckedOut m = elim (ℕ_discrete m.waiting_writers 0) [
  | yes nobody_waits ↦ inr (inr nobody_waits)
  | no somebody_waits ↦ inr (inl (ground arith))
]

leaves-Attended :
    {n : ℕ} {place left : ℕ → Place} {signal : Signal} (m : Monitor)
    → Delivers n place signal left
    → count sleeps n place ≤ m.waiting_writers
    → CheckedOut signal m
    → Attended n (record { monitor = m; place = left })
unfolding CheckedOut Answered
leaves-Attended m d c (inl somebody) = record {
  counted = omega (arith, fewer_sleep d, c);
  hope = inl somebody;
}
leaves-Attended m d c (inr (inl signalled)) = record {
  counted = omega (arith, fewer_sleep d, c);
  hope = inr (Delivers-Answered d signalled);
}
leaves-Attended m d c (inr (inr nobody_waits)) = record {
  counted = omega (arith, fewer_sleep d, c);
  hope = inr (inl (omega (arith, fewer_sleep d, c, nobody_waits)));
}

module _ (n : ℕ) (s : System) (i : ℕ) (lt : i < n) (p : Place) where
  record Moved : Type 0 where
    z : count sleeps n (move s.place i p) + sleeps (s.place i) ≡ count sleeps n s.place + sleeps p
    w : count wakes n (move s.place i p) + wakes (s.place i) ≡ count wakes n s.place + wakes p
    some_z : sleeps (s.place i) ≤ count sleeps n s.place
    some_w : wakes (s.place i) ≤ count wakes n s.place

  moved : Moved
  moved = record {
    z = count-move sleeps n i s.place p lt;
    w = count-move wakes n i s.place p lt;
    some_z = weight-le-count sleeps n i s.place lt;
    some_w = weight-le-count wakes n i s.place lt;
  }

Step-Attended : {n : ℕ} {s t : System} → Step n s t → Attended n s → Attended n t
unfolding reader_checkin reader_wake reader_checkout writer_checkin writer_wake writer_checkout
    reader_must_wait writer_must_wait Answered
Step-Attended {n} {s} (read_in i lt e) v =
    ground (arith, moved n s i lt reading, moved n s i lt reader_asleep)
Step-Attended {n} {s} (wake_reader i lt e) v = ground (arith, moved n s i lt reader_woken)
Step-Attended {n} {s} (read_again i lt e) v =
    ground (arith, moved n s i lt reading, moved n s i lt reader_asleep)
Step-Attended {n} {s} (read_out i lt e d) v =
    leaves-Attended (reader_checkout s.monitor).1 d (ground (arith, moved n s i lt outside))
      (reader_checkout-CheckedOut s.monitor)
Step-Attended {n} {s} (write_in i lt e) v =
    ground (arith, moved n s i lt writing, moved n s i lt writer_asleep)
Step-Attended {n} {s} (wake_writer i lt e) v = ground (arith, moved n s i lt writer_woken)
Step-Attended {n} {s} (write_again i lt e) v =
    ground (arith, moved n s i lt writing, moved n s i lt writer_asleep)
Step-Attended {n} {s} (write_out i lt e d) v =
    leaves-Attended (writer_checkout s.monitor).1 d (ground (arith, moved n s i lt outside))
      (writer_checkout-CheckedOut s.monitor)

Reach-Attended : {n : ℕ} {s : System} → Reach n start s → Attended n s
unfolding start monitor_init Answered
Reach-Attended {n} here = record {
  counted = omega (arith, count-zero sleeps n outside refl);
  hope = inr (inl (count-zero sleeps n outside refl));
}
Reach-Attended (next r st) = Step-Attended st (Reach-Attended r)

reads_reading : (p : Place) → 0 < reads p → p ≡ reading
reads_reading reading h = refl
reads_reading outside h = absurd (omega arith)
reads_reading writing h = absurd (omega arith)
reads_reading reader_asleep h = absurd (omega arith)
reads_reading reader_woken h = absurd (omega arith)
reads_reading writer_asleep h = absurd (omega arith)
reads_reading writer_woken h = absurd (omega arith)

writes_writing : (p : Place) → 0 < writes p → p ≡ writing
writes_writing writing h = refl
writes_writing outside h = absurd (omega arith)
writes_writing reading h = absurd (omega arith)
writes_writing reader_asleep h = absurd (omega arith)
writes_writing reader_woken h = absurd (omega arith)
writes_writing writer_asleep h = absurd (omega arith)
writes_writing writer_woken h = absurd (omega arith)

wakes_woken : (p : Place) → 0 < wakes p → p ≡ writer_woken
wakes_woken writer_woken h = refl
wakes_woken outside h = absurd (omega arith)
wakes_woken reading h = absurd (omega arith)
wakes_woken writing h = absurd (omega arith)
wakes_woken reader_asleep h = absurd (omega arith)
wakes_woken reader_woken h = absurd (omega arith)
wakes_woken writer_asleep h = absurd (omega arith)

-- In every reachable state of any number of threads, where a check-out signals as it does and a
-- signal wakes a sleeper of its condition, if there is one, a writer sleeps only while some thread
-- reads or writes, or a writer is woken and about to test the lock again: no wake-up of the
-- writers is lost.
pub sleeper_is_attended :
    {n : ℕ} {s : System}
    → Reach n start s
    → (j : ℕ) → j < n
    → s.place j ≡ writer_asleep
    → (i : ℕ) × (i < n)
      × ((s.place i ≡ reading) ⊎ ((s.place i ≡ writing) ⊎ (s.place i ≡ writer_woken)))
unfolding Answered
sleeper_is_attended {n} {s} r j hj e =
    let v = Reach-Attended r in
    elim v.hope [
      | inl busy ↦ elim (ℕ_discrete s.monitor.active_readers 0) [
        | yes none_reads ↦
            let (i, lt, w) = some_weight writes n s.place (omega (arith, Reach-Inv r)) in
            (i, lt, inr (inl (writes_writing (s.place i) w)))
        | no some_read ↦
            let (i, lt, w) = some_weight reads n s.place (omega (arith, Reach-Inv r)) in
            (i, lt, inl (reads_reading (s.place i) w))
      ]
      | inr (inl none_sleeps) ↦
          absurd (omega (arith, weight-le-count sleeps n j s.place hj, ap sleeps e, none_sleeps))
      | inr (inr woken) ↦
          let (i, lt, w) = some_weight wakes n s.place woken in
          (i, lt, inr (inr (wakes_woken (s.place i) w)))
    ]
