-- ===== src/Server/Race.antt =====
-- server_interface.c, the history in `say` with no lock around it: the test of the count, the store
-- and the increment of any number of threads, in any order. The increment is taken as one step.
pub mod Overrun
use multithreaded_chat_appli.Base.{if◌then◌else◌, ltb, ℕ, ◌+◌, ◌<◌, ◌≡◌, ◌≤◌}
use multithreaded_chat_appli.Monitor.{move}
use multithreaded_chat_appli.Server.{max_msgs}

-- A thread of `say` elsewhere, behind the test, and behind the store.
pub data Place : Type 0 where
  away passed kept : Place

pub record History : Type 0 where
  pub chat_historyc : ℕ
  pub place : ℕ → Place

-- A step of a thread below `n`; a store says at which index it writes.
pub data Step (n : ℕ) (s : History) : History → Type 0 where
  test :
      (i : ℕ)
      → i < n
      → s.place i ≡ away
      → Step n s (record s {
        place = move s.place i (if ltb s.chat_historyc max_msgs then passed else away);
      })
  store : (i : ℕ) → i < n → s.place i ≡ passed → Step n s (record s { place = move s.place i kept })
  increment :
      (i : ℕ)
      → i < n
      → s.place i ≡ kept
      → Step n s (record { chat_historyc = s.chat_historyc + 1; place = move s.place i away })

unfoldable pub no_history : History
no_history = record { chat_historyc = 0; place = λ _. away }

pub data Reach (n : ℕ) (s : History) : History → Type 0 where
  here : Reach n s s
  next : {t u : History} → Reach n s t → Step n t u → Reach n s u

-- Thread `i` is about to write behind the last slot of `chat_history`.
abbrev pub Overruns : History → ℕ → Type 0
Overruns s i = (s.place i ≡ passed) × (max_msgs ≤ s.chat_historyc)
