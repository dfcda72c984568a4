-- ===== src/Monitor.antt =====
-- server_types.h, the reader-writer lock around the client list: the counters of `Monitor_t`, and
-- the four routines as atomic steps of any number of threads. A routine holds the mutex from its
-- start, or from its return from a wait, to its next wait or its end, so each such stretch is one
-- step.
pub mod Count
pub mod Delivered
pub mod Safety
pub mod Signals
pub mod Starvation
use multithreaded_chat_appli.Base.{
  Bool, false, if◌then◌else◌, ltb, true, ℕ, ◌&&◌, ◌+◌, ◌-◌, ◌<◌, ◌==◌, ◌≡◌, ◌≢◌,
}

-- The counters: active and waiting readers, active and waiting writers. No counter is bounded
-- here: each is an `int`, and a thread adds at most one to it at a time.
pub record Monitor : Type 0 where
  pub active_readers : ℕ
  pub waiting_readers : ℕ
  pub active_writers : ℕ
  pub waiting_writers : ℕ

unfoldable pub monitor_init : Monitor
monitor_init = record {
  active_readers = 0;
  waiting_readers = 0;
  active_writers = 0;
  waiting_writers = 0;
}

-- Whether the loop at the start of a routine waits.
unfoldable pub reader_must_wait : Monitor → Bool
reader_must_wait m = ltb 0 (m.active_writers + m.waiting_writers)

unfoldable pub writer_must_wait : Monitor → Bool
writer_must_wait m = ltb 0 (m.active_writers + m.active_readers)

-- `reader_checkin` up to its end or its first wait: whether the reader is in.
unfoldable pub reader_checkin : Monitor → Bool × Monitor
reader_checkin m =
    if reader_must_wait m
    then (false, record m { waiting_readers = m.waiting_readers + 1 })
    else (true, record m { active_readers = m.active_readers + 1 })

-- The same from the return of `pthread_cond_wait` on.
unfoldable pub reader_wake : Monitor → Bool × Monitor
reader_wake m = reader_checkin (record m { waiting_readers = m.waiting_readers - 1 })

-- What a check-out signals.
pub data Signal : Type 0 where
  no_signal one_writer all_readers : Signal

unfoldable pub reader_checkout : Monitor → Signal × Monitor
reader_checkout m =
    let m' = record m { active_readers = m.active_readers - 1 } in
    (if m'.active_readers == 0 && ltb 0 m'.waiting_writers then one_writer else no_signal, m')

-- `writer_checkin` up to its end or its next wait. It counts a waiting writer before it waits, and
-- nothing counts down when the wait returns.
unfoldable pub writer_checkin : Monitor → Bool × Monitor
writer_checkin m =
    if writer_must_wait m
    then (false, record m { waiting_writers = m.waiting_writers + 1 })
    else (true, record m { active_writers = m.active_writers + 1 })

-- From the return of `pthread_cond_wait` on: the test of the loop again.
unfoldable pub writer_wake : Monitor → Bool × Monitor
writer_wake m = writer_checkin m

unfoldable pub writer_checkout : Monitor → Signal × Monitor
writer_checkout m =
    let m' = record m { active_writers = m.active_writers - 1 } in
    (
      if ltb 0 m'.waiting_writers
          then one_writer
          else if ltb 0 m'.waiting_readers
          then all_readers
          else no_signal,
      m',
    )

-- Where a thread stands in its use of the list.
pub data Place : Type 0 where
  outside reading writing : Place
  reader_asleep reader_woken writer_asleep writer_woken : Place

pub record System : Type 0 where
  pub monitor : Monitor
  pub place : ℕ → Place

abbrev pub move : {P : Type 0} → (ℕ → P) → ℕ → P → ℕ → P
move place i p j = if j == i then p else place j

-- Where a thread is behind a check-in.
abbrev pub after_reader : Bool → Place
after_reader b = if b then reading else reader_asleep

abbrev pub after_writer : Bool → Place
after_writer b = if b then writing else writer_asleep

-- `pthread_cond_broadcast` on the readers' condition.
abbrev pub rouse : Place → Place
rouse reader_asleep = reader_woken
rouse p = p

-- What a signal does to the threads: one to the writers wakes one of those that sleep, if there is
-- one, and it is left open which; one to the readers wakes them all.
pub data Delivers (n : ℕ) (place : ℕ → Place) : Signal → (ℕ → Place) → Type 0 where
  nobody : Delivers n place no_signal place
  a_writer :
      (j : ℕ)
      → j < n
      → place j ≡ writer_asleep
      → Delivers n place one_writer (move place j writer_woken)
  no_writer : ((j : ℕ) → j < n → place j ≢ writer_asleep) → Delivers n place one_writer place
  the_readers : Delivers n place all_readers (λ j. rouse (place j))

-- A thread sleeps on a condition until a signal or a spurious wake-up, which may come to any
-- sleeper at any time. The threads are the indices below `n`.
pub data Step (n : ℕ) (s : System) : System → Type 0 where
  read_in :
      (i : ℕ)
      → i < n
      → s.place i ≡ outside
      → Step n s (record {
        monitor = (reader_checkin s.monitor).1;
        place = move s.place i (after_reader (reader_checkin s.monitor).0);
      })
  wake_reader :
      (i : ℕ)
      → i < n
      → s.place i ≡ reader_asleep
      → Step n s (record s { place = move s.place i reader_woken })
  read_again :
      (i : ℕ)
      → i < n
      → s.place i ≡ reader_woken
      → Step n s (record {
        monitor = (reader_wake s.monitor).1;
        place = move s.place i (after_reader (reader_wake s.monitor).0);
      })
  read_out :
      {left : ℕ → Place} (i : ℕ)
      → i < n
      → s.place i ≡ reading
      → Delivers n (move s.place i outside) (reader_checkout s.monitor).0 left
      → Step n s (record { monitor = (reader_checkout s.monitor).1; place = left })
  write_in :
      (i : ℕ)
      → i < n
      → s.place i ≡ outside
      → Step n s (record {
        monitor = (writer_checkin s.monitor).1;
        place = move s.place i (after_writer (writer_checkin s.monitor).0);
      })
  wake_writer :
      (i : ℕ)
      → i < n
      → s.place i ≡ writer_asleep
      → Step n s (record s { place = move s.place i writer_woken })
  write_again :
      (i : ℕ)
      → i < n
      → s.place i ≡ writer_woken
      → Step n s (record {
        monitor = (writer_wake s.monitor).1;
        place = move s.place i (after_writer (writer_wake s.monitor).0);
      })
  write_out :
      {left : ℕ → Place} (i : ℕ)
      → i < n
      → s.place i ≡ writing
      → Delivers n (move s.place i outside) (writer_checkout s.monitor).0 left
      → Step n s (record { monitor = (writer_checkout s.monitor).1; place = left })

unfoldable pub start : System
start = record { monitor = monitor_init; place = λ _. outside }

pub data Reach (n : ℕ) (s : System) : System → Type 0 where
  here : Reach n s s
  next : {t u : System} → Reach n s t → Step n t u → Reach n s u
