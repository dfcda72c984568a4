-- ===== src/Tests/Races.antt =====
-- Tests of the history between the threads of `say`.
use multithreaded_chat_appli.Base.{arith, refl, ◌<◌}
use multithreaded_chat_appli.Monitor.{move}
use multithreaded_chat_appli.Server.Race.{
  passed, History, Reach, here, next, test, no_history, Overruns,
}
use multithreaded_chat_appli.Server.Race.Overrun.{count_bounded, two_overrun}

-- The first of two threads is behind its test.
abbrev one_tested : History
one_tested = record { chat_historyc = 0; place = move no_history.place 0 passed }

one_tested-Reach : Reach 2 no_history one_tested
unfolding no_history
one_tested-Reach = next here (test 0 (omega arith) refl)

count_bounded_example : one_tested.chat_historyc < 101
unfolding no_history
count_bounded_example = count_bounded one_tested-Reach 0 (omega arith) refl

two_overrun_example : (s : History) × Reach 2 no_history s × Overruns s 1
two_overrun_example = two_overrun 0
