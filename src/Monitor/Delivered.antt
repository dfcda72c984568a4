-- ===== src/Monitor/Delivered.antt =====
-- What a delivered signal leaves as it was.
use multithreaded_chat_appli.Base.{ap, arith, refl, ℕ, ◌≡◌}
use multithreaded_chat_appli.Monitor.{
  Place, outside, reading, writing, reader_asleep, reader_woken, writer_asleep, writer_woken,
  Signal, Delivers, nobody, a_writer, no_writer, the_readers, rouse,
}
use multithreaded_chat_appli.Monitor.Count.{count, count-move, count-ext}

rouse_weight : (w : Place → ℕ) → w reader_asleep ≡ w reader_woken → (p : Place) → w (rouse p) ≡ w p
rouse_weight w h reader_asleep = ground arith
rouse_weight w h outside = refl
rouse_weight w h reading = refl
rouse_weight w h writing = refl
rouse_weight w h reader_woken = refl
rouse_weight w h writer_asleep = refl
rouse_weight w h writer_woken = refl

-- A count that takes no account of a wake-up.
pub Delivers-count :
    {n : ℕ} {place left : ℕ → Place} {signal : Signal}
    → Delivers n place signal left
    → (w : Place → ℕ) → w writer_asleep ≡ w writer_woken
    → w reader_asleep ≡ w reader_woken
    → count w n left ≡ count w n place
Delivers-count nobody w h h' = refl
Delivers-count {n} {place} (a_writer j lt e) w h h' =
    omega (arith, count-move w n j place writer_woken lt, ap w e, h)
Delivers-count (no_writer e) w h h' = refl
Delivers-count {n} {place} the_readers w h h' =
    count-ext w n place (λ j. rouse (place j)) (λ j. rouse_weight w h' (place j))

rouse_reading : (p : Place) → rouse p ≡ reading → p ≡ reading
rouse_reading reader_asleep e = cc
rouse_reading outside e = e
rouse_reading reading e = e
rouse_reading writing e = e
rouse_reading reader_woken e = e
rouse_reading writer_asleep e = e
rouse_reading writer_woken e = e

pub Delivers-reading :
    {n : ℕ} {place left : ℕ → Place} {signal : Signal}
    → Delivers n place signal left
    → (j : ℕ) → left j ≡ reading
    → place j ≡ reading
Delivers-reading nobody j e = e
Delivers-reading (a_writer i lt e') j e = ground arith
Delivers-reading (no_writer e') j e = e
Delivers-reading {n} {place} the_readers j e = rouse_reading (place j) e
