-- ===== src/Service/Booted.antt =====
-- The booted server over whole schedules, and the bounds of what it keeps and sends.
use multithreaded_chat_appli.Base.{All, List, [], length, ◌≡◌}
use multithreaded_chat_appli.Queue.{Queue, queue_max}
use multithreaded_chat_appli.ClientList.Chain.{Item}
use multithreaded_chat_appli.Server.{Packet}
use multithreaded_chat_appli.Room.Packets.{IsGood}
use multithreaded_chat_appli.Service.{Service, Event, turn, done, boot, Runs, stay, go}
use multithreaded_chat_appli.Service.Agree.{boot-IsReady, IsReady, hall_of}
use multithreaded_chat_appli.Service.Fine.{IsOrderly, IsSane}
use multithreaded_chat_appli.Service.Orderly.{turn-IsOrderly}

-- Every command that the parser may leave uninitialised is terminated in its slots.
abbrev pub AllSane : {v w : Service} → Runs v w → Type 0
AllSane stay = Unit
AllSane (go runs e _) = AllSane runs × IsSane e

pub boot-IsOrderly : (memory : Queue) → IsOrderly (hall_of (boot memory) [])
boot-IsOrderly memory = record { threads = tt; room = record { names = tt; lines = tt } }

pub reached-IsOrderly :
    (memory : Queue) {v : Service}
    → length memory.cells ≡ queue_max
    → (runs : Runs (boot memory) v) → AllSane runs
    → (xs : List Item) × IsReady v xs × IsOrderly (hall_of v xs)
reached-IsOrderly memory h stay sane = ([], boot-IsReady memory h, boot-IsOrderly memory)
reached-IsOrderly memory h (go {u} runs e done_too) sane =
    let (xs, r, o) = reached-IsOrderly memory h runs sane.0 in
    let (ys, r', o', _) = turn-IsOrderly u xs r o e sane.1 done_too in (ys, r', o')

-- After any schedule of the booted server its parts are in order and its names, lines and waiting
-- commands fit their slots, and every packet that a further round sends has its text and a
-- terminator within the bytes sent, at most 512, and words that a client's join has room for,
-- where the commands that the parser may leave uninitialised are terminated in their slots.
pub booted_packets-IsGood :
    (memory : Queue) {v : Service}
    → length memory.cells ≡ queue_max
    → (runs : Runs (boot memory) v) → AllSane runs
    → (e : Event) → IsSane e
    → {w : Service} {packets : List Packet} → turn v e ≡ done w packets
    → (xs : List Item) × IsReady v xs × IsOrderly (hall_of v xs) × All IsGood packets
booted_packets-IsGood memory {v} h runs sane e sane' q =
    let (xs, r, o) = reached-IsOrderly memory h runs sane in
    let (_, _, _, good) = turn-IsOrderly v xs r o e sane' q in (xs, r, o, good)
