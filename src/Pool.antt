-- ===== src/Pool.antt =====
-- server_types.h, the worker pool: the counter of `queue_manager_args_t` and its two routines.
-- `none` is a thread that sleeps until another one checks out.
use multithreaded_chat_appli.Base.{Option, if◌then◌else◌, ltb, none, some, ℕ, ◌+◌, ◌-◌}

abbrev pub max_threads : ℕ
max_threads = 128

unfoldable pub worker_thread_checkin : ℕ → Option ℕ
worker_thread_checkin active_worker =
    if ltb active_worker max_threads then some (active_worker + 1) else none

-- The counter is an `int`; a check-out stands behind a check-in, so that it is not 0.
unfoldable pub worker_thread_checkout : ℕ → ℕ
worker_thread_checkout active_worker = active_worker - 1
