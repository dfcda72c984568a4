-- ===== src/Monitor/Safety.antt =====
-- What the lock keeps: readers and a writer are never in the list together, nor two writers.
use multithreaded_chat_appli.Base.{
  arith, inl, inr, refl, sym, ℕ, ℕ_discrete, ◌+◌, ◌<◌, ◌≡◌, ◌≢◌, ◌≤◌, ◌⊎◌,
}
use multithreaded_chat_appli.Monitor.{
  Place, outside, reading, writing, reader_asleep, reader_woken, writer_asleep, writer_woken,
  System, Step, read_in, wake_reader, read_again, read_out, write_in, wake_writer, write_again,
  write_out, Reach, here, next, move, reader_checkin, reader_wake, reader_checkout, writer_checkin,
  writer_wake, writer_checkout, reader_must_wait, writer_must_wait, start, monitor_init,
}
use multithreaded_chat_appli.Monitor.Delivered.{Delivers-count}
use multithreaded_chat_appli.Monitor.Count.{
  count, count-move, count-zero, weight-le-count, weights-le-count,
}

abbrev pub reads : Place → ℕ
reads reading = 1
reads _ = 0

abbrev pub writes : Place → ℕ
writes writing = 1
writes _ = 0

abbrev pub awaits : Place → ℕ
awaits reader_asleep = 1
awaits reader_woken = 1
awaits _ = 0

-- The counters count the threads, and a writer is alone.
pub record Inv (n : ℕ) (s : System) : Type 0 where
  pub readers : s.monitor.active_readers ≡ count reads n s.place
  pub writers : s.monitor.active_writers ≡ count writes n s.place
  pub waiting : s.monitor.waiting_readers ≡ count awaits n s.place
  pub alone : s.monitor.active_writers ≤ 1
  pub apart : (s.monitor.active_writers ≡ 0) ⊎ (s.monitor.active_readers ≡ 0)

-- The counts behind a move of thread `i` to `p`.
module _ (n : ℕ) (s : System) (i : ℕ) (lt : i < n) (p : Place) where
  record Counts : Type 0 where
    r : count reads n (move s.place i p) + reads (s.place i) ≡ count reads n s.place + reads p
    w : count writes n (move s.place i p) + writes (s.place i) ≡ count writes n s.place + writes p
    a : count awaits n (move s.place i p) + awaits (s.place i) ≡ count awaits n s.place + awaits p
    some_r : reads (s.place i) ≤ count reads n s.place
    some_w : writes (s.place i) ≤ count writes n s.place
    some_a : awaits (s.place i) ≤ count awaits n s.place

  counts : Counts
  counts = record {
    r = count-move reads n i s.place p lt;
    w = count-move writes n i s.place p lt;
    a = count-move awaits n i s.place p lt;
    some_r = weight-le-count reads n i s.place lt;
    some_w = weight-le-count writes n i s.place lt;
    some_a = weight-le-count awaits n i s.place lt;
  }

pub Step-Inv : {n : ℕ} {s t : System} → Step n s t → Inv n s → Inv n t
unfolding reader_checkin reader_wake reader_checkout writer_checkin writer_wake writer_checkout
    reader_must_wait writer_must_wait
Step-Inv {n} {s} (read_in i lt e) v =
    ground (arith, counts n s i lt reading, counts n s i lt reader_asleep)
Step-Inv {n} {s} (wake_reader i lt e) v = ground (arith, counts n s i lt reader_woken)
Step-Inv {n} {s} (read_again i lt e) v =
    ground (arith, counts n s i lt reading, counts n s i lt reader_asleep)
Step-Inv {n} {s} (read_out i lt e d) v = ground (
  arith,
  counts n s i lt outside,
  Delivers-count d reads refl refl,
  Delivers-count d writes refl refl,
  Delivers-count d awaits refl refl,
)
Step-Inv {n} {s} (write_in i lt e) v =
    ground (arith, counts n s i lt writing, counts n s i lt writer_asleep)
Step-Inv {n} {s} (wake_writer i lt e) v = ground (arith, counts n s i lt writer_woken)
Step-Inv {n} {s} (write_again i lt e) v =
    ground (arith, counts n s i lt writing, counts n s i lt writer_asleep)
Step-Inv {n} {s} (write_out i lt e d) v = ground (
  arith,
  counts n s i lt outside,
  Delivers-count d reads refl refl,
  Delivers-count d writes refl refl,
  Delivers-count d awaits refl refl,
)

start-Inv : (n : ℕ) → Inv n start
unfolding start monitor_init
start-Inv n = record {
  readers = sym (count-zero reads n outside refl);
  writers = sym (count-zero writes n outside refl);
  waiting = sym (count-zero awaits n outside refl);
  alone = omega arith;
  apart = inl refl;
}

pub Reach-Inv : {n : ℕ} {s : System} → Reach n start s → Inv n s
Reach-Inv {n} here = start-Inv n
Reach-Inv (next r st) = Step-Inv st (Reach-Inv r)

-- In every reachable state of any number of threads, while a thread writes no thread reads and no
-- other one writes.
pub writer_excludes :
    {n : ℕ} {s : System}
    → Reach n start s
    → (i j : ℕ) → i < n
    → j < n
    → s.place i ≡ writing
    → (s.place j ≢ reading) × ((i ≡ j) ⊎ (s.place j ≢ writing))
writer_excludes {n} {s} r i j hi hj e = (
  λ x. ground (
    arith,
    Reach-Inv r,
    weight-le-count reads n j s.place hj,
    weight-le-count writes n i s.place hi,
  ),
  elim (ℕ_discrete i j) [
    | yes same_thread ↦ inl same_thread
    | no other ↦
        inr (λ x. ground (arith, Reach-Inv r, weights-le-count writes n i j s.place hi hj other))
  ],
)
