-- ===== src/Tests/Locks.antt =====
-- Tests of the reader-writer lock.
use multithreaded_chat_appli.Base.{arith, refl, suc, zero, ℕ, ◌<◌, ◌≡◌, ◌≢◌, ◌⊎◌}
use multithreaded_chat_appli.Monitor.{
  reader_asleep, writer_must_wait, reader_must_wait, reader_checkin, after_reader, writer_checkin,
  after_writer, move, monitor_init, System, Reach, start, here, next, read_in, write_in, reading,
  writing,
}
use multithreaded_chat_appli.Monitor.Signals.{sleeper_is_attended}
use multithreaded_chat_appli.Monitor.{writer_woken}
use multithreaded_chat_appli.Monitor.Safety.{writer_excludes}
use multithreaded_chat_appli.Monitor.Starvation.{waited, readers_starve}

-- The states of two threads: the first writes, and the second, a writer too, goes to sleep.
abbrev in_list : System
in_list = record {
  monitor = (writer_checkin start.monitor).1;
  place = move start.place 0 (after_writer (writer_checkin start.monitor).0);
}

abbrev contended : System
contended = record {
  monitor = (writer_checkin in_list.monitor).1;
  place = move in_list.place 1 (after_writer (writer_checkin in_list.monitor).0);
}

in_list-Reach : Reach 2 start in_list
unfolding start
in_list-Reach = next here (write_in 0 (omega arith) refl)

contended-Reach : Reach 2 start contended
unfolding start writer_checkin
contended-Reach = next in_list-Reach (write_in 1 (omega arith) refl)

writer_excludes_example :
    (contended.place 1 ≢ reading) × ((zero ≡ suc zero) ⊎ (contended.place 1 ≢ writing))
unfolding start writer_checkin writer_must_wait monitor_init
writer_excludes_example = writer_excludes contended-Reach 0 1 (omega arith) (omega arith) refl

-- The first thread reads, the second is a writer that goes to sleep, the third wants to read.
abbrev one_reads : System
one_reads = record {
  monitor = (reader_checkin start.monitor).1;
  place = move start.place 0 (after_reader (reader_checkin start.monitor).0);
}

abbrev writer_sleeps : System
writer_sleeps = record {
  monitor = (writer_checkin one_reads.monitor).1;
  place = move one_reads.place 1 (after_writer (writer_checkin one_reads.monitor).0);
}

abbrev third_comes : System
third_comes = record {
  monitor = (reader_checkin writer_sleeps.monitor).1;
  place = move writer_sleeps.place 2 (after_reader (reader_checkin writer_sleeps.monitor).0);
}

third_comes-Reach : Reach 3 writer_sleeps third_comes
unfolding start
third_comes-Reach = next here (read_in 2 (omega arith) refl)

readers_starve_example : (0 < waited third_comes) × (writer_sleeps.place 0 ≡ reading)
unfolding start reader_checkin writer_checkin reader_must_wait writer_must_wait monitor_init
readers_starve_example =
    let w : 0 < waited writer_sleeps = omega arith in readers_starve 0 w third_comes-Reach refl

-- The third thread is asleep.
third_sleeps : third_comes.place 2 ≡ reader_asleep
unfolding start reader_checkin writer_checkin reader_must_wait writer_must_wait monitor_init
third_sleeps = refl

sleeper_is_attended_example :
    (i : ℕ) × (i < 2)
    × ((contended.place i ≡ reading)
        ⊎ ((contended.place i ≡ writing) ⊎ (contended.place i ≡ writer_woken)))
unfolding start writer_checkin writer_must_wait monitor_init
sleeper_is_attended_example = sleeper_is_attended contended-Reach 1 (omega arith) refl
