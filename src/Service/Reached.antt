-- ===== src/Service/Reached.antt =====
-- The states that schedules of the booted server lead to.
use multithreaded_chat_appli.Base.{
  List, [], ap, arith, length, length-append, refl, same, some, suc, text, zero, ℕ, ◌++◌, ◌+◌, ◌∙◌,
  ◌∷◌, ◌≡◌,
}
use mathlib.Core.Path.{subst}
use multithreaded_chat_appli.Queue.{Queue, queue_init, queue_max}
use multithreaded_chat_appli.Queue.Inv.{Entry, contents}
use multithreaded_chat_appli.Queue.Refine.{put_entry, get_entry}
use multithreaded_chat_appli.CString.{cstring}
use multithreaded_chat_appli.CString.Words.{push, split, words}
use multithreaded_chat_appli.Queue.Tokenise.{drop_dollar}
use multithreaded_chat_appli.Cmd.{Command, unknown, kind_of, command_handler}
use multithreaded_chat_appli.ClientList.Chain.{Item}
use multithreaded_chat_appli.Server.{Packet}
use multithreaded_chat_appli.Room.{note_activity}
use multithreaded_chat_appli.Service.{
  Service, Turn, done, Event, listens, manages, turn, boot, Runs, stay, go, client_request, started,
}
use multithreaded_chat_appli.Service.Hall.{takes_up, Hall, HallTurn, hall_turn, takes_up}
use multithreaded_chat_appli.Service.Agree.{boot-IsReady, IsReady, hall_of, Agrees, turn-Agrees}

-- What a round that is done leaves.
left-IsReady :
    (t : Turn) (h : HallTurn) {v : Service} {packets : List Packet}
    → Agrees t h
    → t ≡ done v packets
    → (xs : List Item) × IsReady v xs
left-IsReady t HallTurn.blocked a e = absurd cc
left-IsReady t HallTurn.crashed a e = absurd cc
left-IsReady t (HallTurn.done h _) {v} (v', xs', e', r, _) e =
    let same : v' ≡ v = cc in (xs', subst (λ w. IsReady w xs') same r)

-- After any schedule of the booted server's rounds that has not ended in a crash, the queue is
-- valid, the worker pool has room, the client list is well linked and the history is within its
-- array.
pub reached-IsReady :
    (memory : Queue) {v : Service}
    → length memory.cells ≡ queue_max
    → Runs (boot memory) v
    → (xs : List Item) × IsReady v xs
reached-IsReady memory h stay = ([], boot-IsReady memory h)
reached-IsReady memory h (go {u} runs e done_too) =
    let (xs, r) = reached-IsReady memory h runs in
    left-IsReady (turn u e) (hall_turn (hall_of u xs) e) (turn-Agrees u xs r e) done_too

-- A datagram that no keyword begins.
abbrev pub hello : List ℕ
hello = text "hello" ++ 0 ∷ []

abbrev pub any_command : Command
any_command = record { kind = unknown; args = [] }

-- What the queue holds behind it.
abbrev hello_entry : Entry
hello_entry = (text "hello", some 0)

hello_queued : put_entry [] (client_request hello []) (some 0) ≡ some (hello_entry ∷ [])
unfolding put_entry client_request cstring
hello_queued = refl

hello_words : get_entry (hello_entry ∷ []) ≡ some (text "hello" ∷ [], 0, [])
unfolding get_entry words split push drop_dollar
hello_words = refl

-- The command that the parser makes of it.
abbrev pub hello_command : Command
hello_command = command_handler any_command (text "hello" ∷ [])

pub hello_kind : hello_command.kind ≡ unknown
unfolding command_handler kind_of same
hello_kind = refl

-- A datagram comes, and then the queue manager's turn.
pub hall_hears :
    (h : Hall)
    → h.waiting ≡ []
    → hall_turn h (listens hello [] 0) ≡ HallTurn.done (record h { waiting = hello_entry ∷ [] }) []
unfolding hall_turn
hall_hears h e = rw e (rw hello_queued)

pub hall_starts :
    (h : Hall)
    → h.waiting ≡ hello_entry ∷ []
    → (h' : Hall) × (hall_turn h (manages any_command 0) ≡ HallTurn.done h' [])
      × (h'.waiting ≡ [])
      × (h'.threads ≡ h.threads ++ ((hello_command, 0) ∷ []))
unfolding hall_turn
hall_starts h e = (
  record {
    waiting = [];
    threads = h.threads ++ started hello_command 0;
    room = note_activity h.room hello_command.kind 0 0;
  },
  rw e (rw (hello_words, takes_up)),
  refl,
  rw hello_kind refl,
)

-- A step of the server that the hall can do.
pub follows :
    {v : Service} {xs : List Item} {h : Hall} {packets : List Packet}
    → IsReady v xs
    → (e : Event) → hall_turn (hall_of v xs) e ≡ HallTurn.done h packets
    → (w : Service) × (ys : List Item) × (turn v e ≡ done w packets)
      × IsReady w ys
      × (hall_of w ys ≡ h)
follows {v} {xs} r e q = subst (Agrees (turn v e)) q (turn-Agrees v xs r e)

boot_quiet : (memory : Queue) → contents (boot memory).task_queue ≡ []
unfolding queue_init
boot_quiet memory = refl

-- Some schedule of the booted server creates any given number of threads of commands that have not
-- run: the worker pool bounds nothing.
pub threads_unbounded :
    (memory : Queue)
    → length memory.cells ≡ queue_max
    → (n : ℕ) → (v : Service) × Runs (boot memory) v × (length v.threads ≡ n)
threads_unbounded memory h n = let (v, xs, runs, r, _, e) = crowd n in (v, runs, e)
  where
    crowd :
        (n : ℕ)
        → (v : Service) × (xs : List Item) × Runs (boot memory) v
          × IsReady v xs
          × (contents v.task_queue ≡ [])
          × (length v.threads ≡ n)
    crowd zero = (boot memory, [], stay, boot-IsReady memory h, boot_quiet memory, refl)
    crowd (suc n) =
        let (u, xs, runs, r, e, many) = crowd n in
        let (v, ys, heard, r', same_hall) =
          follows r (listens hello [] 0) (hall_hears (hall_of u xs) e) in
        let (h', taken, emptied, one_more) =
          hall_starts (hall_of v ys) (ap (λ (h : Hall). h.waiting) same_hall) in
        let (w, zs, managed, r'', same_hall') = follows r' (manages any_command 0) taken in
        (
          w,
          zs,
          go (go runs (listens hello [] 0) heard) (manages any_command 0) managed,
          r'',
          ap (λ (h : Hall). h.waiting) same_hall' ∙ emptied,
          ap (λ (h : Hall). length h.threads) same_hall'
              ∙ ap length one_more
              ∙ length-append v.threads ((hello_command, 0) ∷ [])
              ∙ ap (λ (h : Hall). length h.threads + 1) same_hall
              ∙ omega (arith, many),
        )
