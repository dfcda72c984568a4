-- ===== src/Room.antt =====
-- The chat room that the server is meant to keep: its members and its history, with no pointers,
-- no queue cells and no buffers. It is the specification that the server is compared with.
pub mod Members
pub mod Handlers
pub mod Packets
pub mod Private
pub mod Fine
pub mod Authority
use multithreaded_chat_appli.Base.{
  Bool, List, Option, Text, [], false, map, none, some, text, true, ℕ, ◌++◌, ◌==◌, ◌∷◌,
}
use multithreaded_chat_appli.Queue.{Addr}
use multithreaded_chat_appli.Cmd.{
  Kind, conn, say, sayto, mute, unmute, rename, disconn, kick, unknown, conn_success, conn_failed,
  disconn_response, ping, retping, error, Command, max_message, response_buffer_size,
}
use multithreaded_chat_appli.Cmd.{name_size}
use multithreaded_chat_appli.ClientList.{Client, new_client}
use multithreaded_chat_appli.ClientList.Refine.{named, from}
use multithreaded_chat_appli.Server.{
  fits, answer_size, Packet, packet, arg, snprintf, remember, recent_history,
}
use multithreaded_chat_appli.Server.Handlers.{said, whispered}
use multithreaded_chat_appli.Server.Members.{farewell}
use multithreaded_chat_appli.Activity.{is_late}

pub record Room : Type 0 where
  pub members : List Client
  pub history : List Text

-- The first member that passes a test, and changes of that one.
abbrev pub find : (Client → Bool) → List Client → Option Client
find test [] = none
find test (c ∷ cs) = elim (test c) [ true ↦ some c | false ↦ find test cs ]

abbrev pub change : (Client → Bool) → (Client → Client) → List Client → List Client
change test f [] = []
change test f (c ∷ cs) = elim (test c) [ true ↦ f c ∷ cs | false ↦ c ∷ change test f cs ]

abbrev pub expel : Text → List Client → List Client
expel name [] = []
expel name (c ∷ cs) = elim (named name c) [ true ↦ cs | false ↦ c ∷ expel name cs ]

-- One packet for every member.
abbrev pub announce : Text → List Client → List Packet
announce body cs =
    map
      (λ (c : Client).
        packet response_buffer_size (snprintf response_buffer_size body) c.client_address)
      cs

-- The longest-standing member is the administrator.
abbrev pub rules : List Client → Addr → Bool
rules [] addr = false
rules (c ∷ cs) addr = c.client_address == addr

abbrev pub Answer : Type 0
Answer = Option (Room × List Packet)

abbrev pub enter : Room → Command → Addr → ℕ → Answer
enter r command addr now = elim (fits answer_size (text "connsuccess$ " ++ arg command 0)) [
  | false ↦ none
  | true ↦ some (
    record r { members = r.members ++ (new_client addr (arg command 0) now ∷ []) },
    packet max_message (text "connsuccess$ " ++ arg command 0) addr
        ∷ map
            (λ (h : Text).
              packet response_buffer_size (snprintf response_buffer_size (text "say$ " ++ h)) addr)
            (recent_history r.history),
  )
]

abbrev pub speak : Room → Command → Addr → Answer
speak r command addr = elim (find (from addr) r.members) [
  | none ↦ none
  | some c ↦ some (
    record r { history = remember r.history (said command c) },
    announce (text "say$ " ++ said command c) r.members,
  )
]

abbrev pub whisper_to : Room → Command → Addr → Answer
whisper_to r command addr = elim (find (from addr) r.members) [
  | none ↦ elim (find (named (arg command 0)) r.members) [ none ↦ some (r, []) | some d ↦ none ]
  | some c ↦ some (r, whispered command c (find (named (arg command 0)) r.members))
]

abbrev pub leave : Room → Addr → Answer
leave r addr = elim (find (from addr) r.members) [
  | none ↦ some (r, [])
  | some c ↦ elim (find (named c.client_name) r.members) [
    | none ↦ some (r, [])
    | some d ↦
        some (record r { members = expel c.client_name r.members }, farewell d.client_address ∷ [])
  ]
]

abbrev pub take_name : Room → Command → Addr → Answer
take_name r command addr = elim (find (from addr) r.members) [
  | none ↦ none
  | some c ↦ elim (fits name_size (arg command 0)) [
    | false ↦ none
    | true ↦ some (
      record r {
        members = change (from addr) (λ d. record d { client_name = arg command 0 }) r.members;
      },
      packet max_message (snprintf max_message (text "rename$ " ++ arg command 0)) addr ∷ [],
    )
  ]
]

abbrev pub refusal : Addr → Packet
refusal addr =
    packet max_message
      (snprintf max_message (text "error$ Permission denied. Only admin can kick users.")) addr

abbrev pub throw_out : Room → Command → Addr → Answer
throw_out r command addr = elim (rules r.members addr) [
  | false ↦ some (r, refusal addr ∷ [])
  | true ↦ some (
    record r { members = expel (arg command 0) r.members },
    elim (find (named (arg command 0)) r.members) [
      | none ↦ []
      | some d ↦
          farewell d.client_address
          ∷ announce (text "say$ SERVER: " ++ (arg command 0 ++ text " has been kicked"))
              (expel (arg command 0) r.members)
    ],
  )
]

-- What the room does on a command, by its kind; `none` stands for a crash.
unfoldable pub respond : Room → Command → Kind → Addr → ℕ → Answer
respond r command conn addr now = enter r command addr now
respond r command say addr now = speak r command addr
respond r command sayto addr now = whisper_to r command addr
respond r command disconn addr now = leave r addr
respond r command rename addr now = take_name r command addr
respond r command kick addr now = throw_out r command addr
respond r command mute addr now =
    some (r, packet max_message (snprintf max_message (text "mute$ " ++ arg command 0)) addr ∷ [])
respond r command unmute addr now =
    some (r, packet max_message (snprintf max_message (text "unmute$ " ++ arg command 0)) addr ∷ [])
respond r command unknown addr now =
    some (r, packet max_message (text "error$ Unknown command") addr ∷ [])
respond r command other addr now = some (r, [])

-- A command other than `conn` shows that its sender is there.
unfoldable pub note_activity : Room → Kind → Addr → ℕ → Room
note_activity r kind addr now = elim kind as (λ _. Room) [
  | conn ↦ r
  | _ ↦ record r {
    members = change (from addr) (λ c. record c { last_active = now; ping_sent = 0 }) r.members;
  }
]

-- The check for members that have been silent for too long.
unfoldable pub look_round : Room → ℕ → Room × List Packet
look_round r now = elim (find (is_late now) r.members) [
  | none ↦ (r, [])
  | some c ↦ elim (c.ping_sent == 0) [
    | true ↦ (
      record r { members = change (is_late now) (λ d. record d { ping_sent = now }) r.members },
      packet max_message (text "ping$") c.client_address ∷ [],
    )
    | false ↦ (
      record r { members = expel c.client_name r.members },
      packet max_message (text "disconnresponse$") c.client_address ∷ [],
    )
  ]
]
