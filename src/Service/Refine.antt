-- ===== src/Service/Refine.antt =====
-- The server as a whole beside the hall, over schedules.
use multithreaded_chat_appli.Base.{List, [], ap, length, refl, ◌∙◌, ◌∷◌, ◌≡◌}
use multithreaded_chat_appli.Queue.{queue_max, Queue, queue_init}
use multithreaded_chat_appli.ClientList.Chain.{Item}
use multithreaded_chat_appli.Queue.{queue_init}
use multithreaded_chat_appli.Service.{
  Service, Turn, blocked, crashed, hung, done, Event, turn, Seen, slept, crash, hang, sent, trace,
  boot,
}
use multithreaded_chat_appli.Service.Hall.{Hall, HallTurn, hall_turn, hall_trace, empty_hall}
use multithreaded_chat_appli.Service.Agree.{boot-IsReady, IsReady, hall_of, Agrees, turn-Agrees}

-- One event and the rest of the schedule.
seen_alike :
    (t : Turn) (h : HallTurn) (v : Service) (xs : List Item) (es : List Event)
    → Agrees t h
    → trace v es ≡ hall_trace (hall_of v xs) es
    → ((v' : Service) (xs' : List Item)
        → IsReady v' xs'
        → trace v' es ≡ hall_trace (hall_of v' xs') es)
    → elim t as (λ _. List Seen) [
      | blocked ↦ slept ∷ trace v es
      | crashed ↦ crash ∷ []
      | hung ↦ hang ∷ []
      | done v' packets ↦ sent packets ∷ trace v' es
    ]
      ≡ elim h as (λ _. List Seen) [
        | HallTurn.blocked ↦ slept ∷ hall_trace (hall_of v xs) es
        | HallTurn.crashed ↦ crash ∷ []
        | HallTurn.done h' packets ↦ sent packets ∷ hall_trace h' es
      ]
seen_alike t HallTurn.blocked v xs es a stays goes = rw a (ap (λ l. slept ∷ l) stays)
seen_alike t HallTurn.crashed v xs es a stays goes = rw a
seen_alike t (HallTurn.done h' packets) v xs es (v', xs', e, r, same_hall) stays goes =
    rw e (ap (λ l. sent packets ∷ l) (goes v' xs' r ∙ ap (λ (h : Hall). hall_trace h es) same_hall))

-- From a server whose queue is valid, whose worker pool has room and whose client list is well
-- linked, every schedule of its listener, its queue manager, the threads of the commands and the
-- inactivity check shows the network just what the specification shows: a bounded list of
-- messages, a list of members and a history.
pub trace_refines :
    (es : List Event) (v : Service) (xs : List Item)
    → IsReady v xs
    → trace v es ≡ hall_trace (hall_of v xs) es
unfolding trace hall_trace
trace_refines [] v xs r = refl
trace_refines (e ∷ es) v xs r =
    seen_alike (turn v e) (hall_turn (hall_of v xs) e) v xs es (turn-Agrees v xs r e)
      (trace_refines es v xs r) (trace_refines es)

-- So does the booted server beside the empty hall.
pub boot_refines :
    (memory : Queue) (es : List Event)
    → length memory.cells ≡ queue_max
    → trace (boot memory) es ≡ hall_trace empty_hall es
unfolding queue_init
boot_refines memory es h = trace_refines es (boot memory) [] (boot-IsReady memory h)
