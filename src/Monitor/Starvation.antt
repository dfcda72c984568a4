-- ===== src/Monitor/Starvation.antt =====
-- What a writer that has had to wait leaves behind.
use multithreaded_chat_appli.Base.{arith, ℕ, ◌<◌, ◌≡◌, ◌≤◌}
use multithreaded_chat_appli.Monitor.{
  reading, System, Step, read_in, wake_reader, read_again, read_out, write_in, wake_writer,
  write_again, write_out, Reach, here, next, reader_checkin, reader_wake, reader_checkout,
  writer_checkin, writer_wake, writer_checkout, reader_must_wait,
}
use multithreaded_chat_appli.Monitor.Delivered.{Delivers-reading}

abbrev pub waited : System → ℕ
waited s = s.monitor.waiting_writers

-- No step counts a waiting writer down.
pub Step-waited : {n : ℕ} {s t : System} → Step n s t → waited s ≤ waited t
unfolding reader_checkin reader_wake reader_checkout writer_checkin writer_wake writer_checkout
Step-waited (read_in i lt e) = ground arith
Step-waited (wake_reader i lt e) = omega arith
Step-waited (read_again i lt e) = ground arith
Step-waited (read_out i lt e d) = omega arith
Step-waited (write_in i lt e) = ground arith
Step-waited (wake_writer i lt e) = omega arith
Step-waited (write_again i lt e) = ground arith
Step-waited (write_out i lt e d) = omega arith

Step-reading :
    {n : ℕ} {s t : System}
    → Step n s t
    → 0 < waited s
    → (j : ℕ) → t.place j ≡ reading
    → s.place j ≡ reading
unfolding reader_checkin reader_wake reader_checkout writer_checkin writer_wake writer_checkout
    reader_must_wait
Step-reading (read_in i lt e) w j r = ground arith
Step-reading (wake_reader i lt e) w j r = ground arith
Step-reading (read_again i lt e) w j r = ground arith
Step-reading {n} {s} (read_out i lt e d) w j r = let back = Delivers-reading d j r in ground arith
Step-reading (write_in i lt e) w j r = ground arith
Step-reading (wake_writer i lt e) w j r = ground arith
Step-reading (write_again i lt e) w j r = ground arith
Step-reading {n} {s} (write_out i lt e d) w j r = let back = Delivers-reading d j r in ground arith

Reach-waited : {n : ℕ} {s t : System} → Reach n s t → waited s ≤ waited t
Reach-waited here = omega arith
Reach-waited (next r st) = omega (arith, Reach-waited r, Step-waited st)

stays_out :
    {n : ℕ} {s t : System}
    → 0 < waited s
    → Reach n s t
    → (0 < waited t) × ((j : ℕ) → t.place j ≡ reading → s.place j ≡ reading)
stays_out w here = (w, λ j r. r)
stays_out w (next r st) =
    let (w', back) = stays_out w r in
    (omega (arith, w', Step-waited st), λ j e. back j (Step-reading st w' j e))

-- Once a writer has had to wait, whatever the threads do, that count stays, and a thread that
-- reads later was reading already then.
pub readers_starve :
    {n : ℕ} {s t : System} (j : ℕ)
    → 0 < waited s
    → Reach n s t
    → t.place j ≡ reading
    → (0 < waited t) × (s.place j ≡ reading)
readers_starve j w r e = let (w', back) = stays_out w r in (w', back j e)
