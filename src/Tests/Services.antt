-- ===== src/Tests/Services.antt =====
-- Tests of the server as a whole, and of a client's node that hears it.
use multithreaded_chat_appli.Base.{
  All, List, Text, [], ap, arith, false, length, none, pick, refl, some, text, true, ℕ, ◌++◌, ◌∙◌,
  ◌∷◌, ◌≡◌, ◌⊎◌,
}
use multithreaded_chat_appli.Queue.{queue_init}
use multithreaded_chat_appli.Cmd.{Command, say, max_message}
use multithreaded_chat_appli.ClientList.Chain.{Item}
use multithreaded_chat_appli.ClientList.Refine.{from}
use multithreaded_chat_appli.Join.Unwords.{unwords, glue}
use multithreaded_chat_appli.Server.{Server, Packet, packet, execute, handle_unknown_command}
use multithreaded_chat_appli.Server.View.{found}
use multithreaded_chat_appli.Server.Handlers.{execute_say_lem}
use multithreaded_chat_appli.Server.Valid.{IsHeard, fits_name, reads_sender}
use multithreaded_chat_appli.Room.Packets.{IsGood}
use multithreaded_chat_appli.Service.{
  Service, stay, go, crashed, Event, listens, manages, runs, turn, trace, boot, Runs, run_thread,
  done,
}
use multithreaded_chat_appli.Service.Hall.{Hall, hall_trace}
use multithreaded_chat_appli.Service.Agree.{boot-IsReady, IsReady, hall_of}
use multithreaded_chat_appli.Service.Refine.{trace_refines}
use multithreaded_chat_appli.Service.Crashes.{turn_crashes}
use multithreaded_chat_appli.Service.Reached.{
  hello, any_command, hello_command, hello_kind, hall_hears, hall_starts, follows,
  threads_unbounded,
}
use multithreaded_chat_appli.Service.Fine.{IsOrderly}
use multithreaded_chat_appli.Service.Booted.{AllSane, booted_packets-IsGood}
use multithreaded_chat_appli.Client.Node.{ClientNode}
use multithreaded_chat_appli.Client.Node.Safe.{IsSafe}
use multithreaded_chat_appli.Tests.Data.{
  unread, empty_queue, empty_queue-IsValid, buffer, two_items, chat_room, chat_room-IsServer,
  command_with, viewer, viewer-IsSound,
}

abbrev hello_there : Command
hello_there = command_with (text "hello") (text "there")

-- The chat room with one thread that is about to run.
abbrev about_to_run : Command → ℕ → Service
about_to_run command sender = record {
  task_queue = empty_queue;
  active_worker = 0;
  threads = (command, sender) ∷ [];
  server = chat_room;
}

about_to_run-IsReady :
    (command : Command) (sender : ℕ) → IsReady (about_to_run command sender) two_items
about_to_run-IsReady command sender = record {
  queue = empty_queue-IsValid;
  pool = omega arith;
  server = chat_room-IsServer;
}

-- A new client's datagram, its round of the queue manager, and two threads.
abbrev evening : List Event
evening =
    listens (buffer (text "conn$ cyd")) [] 33 ∷ manages hello_there 9 ∷ runs 0 9 ∷ runs 0 9 ∷ []

trace_refines_example :
    trace (about_to_run hello_there 11) evening
    ≡ hall_trace (hall_of (about_to_run hello_there 11) two_items) evening
trace_refines_example =
    trace_refines evening (about_to_run hello_there 11) two_items
      (about_to_run-IsReady hello_there 11)

abbrev runs_at : ℕ → Event
runs_at i = runs i 9

-- The first thread's run, by what its handler gives.
first_falls :
    (v : Service) (t : Command × ℕ) (others : List (Command × ℕ))
    → pick 0 v.threads ≡ some (t, others)
    → execute v.server t.0 t.0.kind t.1 9 ≡ none
    → turn v (runs 0 9) ≡ crashed
unfolding turn run_thread
first_falls v t others e e' = rw (e, run_thread) (rw e')

first_answers :
    (v : Service) (t : Command × ℕ) (others : List (Command × ℕ)) (s : Server)
    (packets : List Packet)
    → pick 0 v.threads ≡ some (t, others)
    → execute v.server t.0 t.0.kind t.1 9 ≡ some (s, packets)
    → turn v (runs 0 9) ≡ done (record v { threads = others; server = s }) packets
unfolding turn run_thread
first_answers v t others s packets e e' = rw (e, run_thread) (rw e')

stranger_unknown : execute chat_room hello_there say 33 9 ≡ none
unfolding execute
stranger_unknown = execute_say_lem chat_room two_items chat_room-IsServer.linked hello_there 33

stranger_falls : turn (about_to_run hello_there 33) (runs 0 9) ≡ crashed
stranger_falls =
    first_falls (about_to_run hello_there 33) (hello_there, 33) [] refl stranger_unknown

turn_crashes_example :
    (i now : ℕ) × (t : Command × ℕ) × (others : List (Command × ℕ)) × (runs 0 9 ≡ runs i now)
    × (pick i ((hello_there, 33) ∷ []) ≡ some (t, others))
    × (((reads_sender t.0.kind ≡ true)
          × (found (from t.1) two_items ≡ none)
          × IsHeard two_items t.0 t.0.kind)
        ⊎ (fits_name t.0 t.0.kind ≡ false))
turn_crashes_example =
    turn_crashes (about_to_run hello_there 33) two_items (about_to_run-IsReady hello_there 33)
      (runs 0 9) stranger_falls

threads_unbounded_example : (v : Service) × Runs (boot unread) v × (length v.threads ≡ 3)
threads_unbounded_example = threads_unbounded unread refl 3

-- A node that listens, with a line of chat that waits to be shown.
abbrev screen : ClientNode
screen = record {
  task_queue = empty_queue;
  threads = (text "say" ∷ text "hi" ∷ []) ∷ [];
  client = viewer;
}

screen-IsSafe : IsSafe screen
unfolding queue_init unwords glue
screen-IsSafe = record {
  queue = empty_queue-IsValid;
  waiting = tt;
  threads = ((text "say", text "hi" ∷ [], refl, omega arith, omega arith), tt);
  client = viewer-IsSound;
}

abbrev answered : Text
answered = text "error$ Unknown command"

-- A booted server that has heard `hello` and is about to answer that it does not know it.
abbrev Greeted : Type 0
Greeted =
    (v w : Service) × (schedule : Runs (boot unread) v) × AllSane schedule
    × (turn v (runs_at 0) ≡ done w (packet max_message answered 0 ∷ []))

hello_answered :
    (s : Server)
    → execute s hello_command hello_command.kind 0 9 ≡ some (s, packet max_message answered 0 ∷ [])
unfolding execute handle_unknown_command
hello_answered s = rw hello_kind refl

greeted : Greeted
unfolding queue_init
greeted =
    let (v, ys, heard, r', same_hall) =
      follows (boot-IsReady unread refl) (listens hello [] 0)
        (hall_hears (hall_of (boot unread) []) refl) in
    let (h', taken, emptied, one_more) =
      hall_starts (hall_of v ys) (ap (λ (h : Hall). h.waiting) same_hall) in
    let (w, zs, managed, r'', same_hall') = follows r' (manages any_command 0) taken in
    let threads : w.threads ≡ (hello_command, 0) ∷ [] =
      ap (λ (h : Hall). h.threads) same_hall'
      ∙ one_more
      ∙ ap (λ (h : Hall). h.threads ++ ((hello_command, 0) ∷ [])) same_hall in
    (
      w,
      record w { threads = [] },
      go (go stay (listens hello [] 0) heard) (manages any_command 0) managed,
      ((tt, tt), tt),
      first_answers w (hello_command, 0) [] w.server _ (ap (pick 0) threads)
          (hello_answered w.server),
    )

booted_packets-IsGood_example :
    (xs : List Item) × IsReady greeted.0 xs
    × IsOrderly (hall_of greeted.0 xs)
    × All IsGood (packet max_message answered 0 ∷ [])
booted_packets-IsGood_example =
    booted_packets-IsGood unread refl greeted.2 greeted.3 (runs_at 0) tt greeted.4
