-- ===== src/Service/Hall.antt =====
-- The same with the specifications for parts: the waiting messages as a bounded list, and the room.
use multithreaded_chat_appli.Base.{
  List, [], if◌then◌else◌, length, ltb, none, pick, some, ℕ, ◌++◌, ◌∷◌,
}
use multithreaded_chat_appli.Queue.{Addr}
use multithreaded_chat_appli.Queue.Inv.{Entry}
use multithreaded_chat_appli.Queue.Refine.{put_entry, get_entry}
use multithreaded_chat_appli.Cmd.{Command, command_handler}
use multithreaded_chat_appli.Server.{Packet}
use multithreaded_chat_appli.Room.{Room, respond, note_activity, look_round}
use multithreaded_chat_appli.Service.{
  client_request, started, Event, listens, manages, runs, checks, Seen, slept, crash, sent,
}

pub record Hall : Type 0 where
  pub waiting : List Entry
  pub threads : List (Command × Addr)
  pub room : Room

pub data HallTurn : Type 0 where
  blocked crashed : HallTurn
  done : Hall → List Packet → HallTurn

abbrev pub hears : Hall → List ℕ → List ℕ → Addr → HallTurn
hears h datagram stack from =
    if ltb 0 (length datagram)
    then elim (put_entry h.waiting (client_request datagram stack) (some from)) [
      | none ↦ blocked
      | some es ↦ done (record h { waiting = es }) []
    ]
    else done h []

abbrev pub takes_up : Hall → Command → ℕ → HallTurn
takes_up h uninitialised now = elim (get_entry h.waiting) [
  | none ↦ blocked
  | some (words, sender, es) ↦
      let command = command_handler uninitialised words in
      done
        (record {
          waiting = es;
          threads = h.threads ++ started command sender;
          room = note_activity h.room command.kind sender now;
        })
        []
]

abbrev pub answers : Hall → ℕ → ℕ → HallTurn
answers h i now = elim (pick i h.threads) [
  | none ↦ blocked
  | some (t, others) ↦ elim (respond h.room t.0 t.0.kind t.1 now) [
    | none ↦ crashed
    | some (room, packets) ↦ done (record h { threads = others; room = room }) packets
  ]
]

abbrev pub looks : Hall → ℕ → HallTurn
looks h now = done (record h { room = (look_round h.room now).0 }) (look_round h.room now).1

unfoldable pub hall_turn : Hall → Event → HallTurn
hall_turn h (listens datagram stack from) = hears h datagram stack from
hall_turn h (manages uninitialised now) = takes_up h uninitialised now
hall_turn h (runs i now) = answers h i now
hall_turn h (checks now) = looks h now

unfoldable pub hall_trace : Hall → List Event → List Seen
hall_trace h [] = []
hall_trace h (e ∷ es) = elim (hall_turn h e) [
  | blocked ↦ slept ∷ hall_trace h es
  | crashed ↦ crash ∷ []
  | done h' packets ↦ sent packets ∷ hall_trace h' es
]

abbrev pub empty_hall : Hall
empty_hall = record { waiting = []; threads = []; room = record { members = []; history = [] } }
