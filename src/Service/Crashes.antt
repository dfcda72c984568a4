-- ===== src/Service/Crashes.antt =====
-- Which events crash the server.
use multithreaded_chat_appli.Base.{
  Bool-cases, [], List, Option-cases, false, text, ◌++◌, ◌⊎◌, arith, inl, inr, length, ltb, none,
  pick, refl, some, true, ℕ, ◌∙◌, ◌≡◌, ◌≢◌,
}
use multithreaded_chat_appli.Queue.{Addr}
use multithreaded_chat_appli.Queue.Refine.{put_entry, get_entry}
use multithreaded_chat_appli.Cmd.{
  Kind, conn, say, sayto, mute, unmute, rename, disconn, kick, unknown, conn_success, conn_failed,
  disconn_response, ping, retping, error, Command,
}
use multithreaded_chat_appli.ClientList.Chain.{Item}
use multithreaded_chat_appli.ClientList.Refine.{from, named}
use multithreaded_chat_appli.Server.View.{found}
use multithreaded_chat_appli.Server.Valid.{IsHeard, fits_name, reads_sender}
use multithreaded_chat_appli.Server.{arg, fits, answer_size}
use multithreaded_chat_appli.Cmd.{name_size}
use multithreaded_chat_appli.ClientList.{Client}
use multithreaded_chat_appli.Room.{
  enter, Room, find, respond, speak, whisper_to, take_name, leave, throw_out,
}
use multithreaded_chat_appli.Room.Members.{clients_of, found-clients_of}
use multithreaded_chat_appli.Service.{
  Service, Turn, crashed, client_request, Event, listens, manages, runs, checks, turn,
}
use multithreaded_chat_appli.Service.Hall.{Hall, HallTurn, hears, takes_up, answers, hall_turn}
use multithreaded_chat_appli.Service.Agree.{IsReady, hall_of, Agrees, turn-Agrees}

-- The receiver of a `sayto` is in the room.
abbrev HasReceiver : Room → Command → Kind → Type 0
HasReceiver r command kind =
    (kind ≢ sayto) ⊎ ((d : Client) × (find (named (arg command 0)) r.members ≡ some d))

-- The sender of a command is not in the room, and the command needs it; or a name does not fit.
abbrev IsStray : Room → Command → Kind → Addr → Type 0
IsStray r command kind addr =
    ((reads_sender kind ≡ true) × (find (from addr) r.members ≡ none) × HasReceiver r command kind)
    ⊎ (fits_name command kind ≡ false)

module _ (r : Room) (command : Command) (addr : Addr) (now : ℕ) where
  stray_say : speak r command addr ≡ none → find (from addr) r.members ≡ none
  stray_say q = elim (Option-cases (find (from addr) r.members)) [
    | inl e ↦ e
    | inr (c, e) ↦ ground arith
  ]

  whisper_to-IsStray : whisper_to r command addr ≡ none → IsStray r command sayto addr
  whisper_to-IsStray q = elim (Option-cases (find (from addr) r.members)) [
    | inr (c, e) ↦ absurd (ground arith)
    | inl e ↦ elim (Option-cases (find (named (arg command 0)) r.members)) [
      | inl e' ↦ absurd (ground arith)
      | inr (d, e') ↦ inl (refl, e, inr (d, e'))
    ]
  ]

  take_name-IsStray : take_name r command addr ≡ none → IsStray r command rename addr
  take_name-IsStray q = elim (Bool-cases (fits name_size (arg command 0))) [
    | inr long ↦ inr long
    | inl h ↦ elim (Option-cases (find (from addr) r.members)) [
      | inl e ↦ inl (refl, e, inl (λ k. cc))
      | inr (c, e) ↦ absurd (ground arith)
    ]
  ]

  enter-IsStray : enter r command addr now ≡ none → IsStray r command conn addr
  enter-IsStray q = elim (Bool-cases (fits answer_size (text "connsuccess$ " ++ arg command 0))) [
    | inr long ↦ inr long
    | inl h ↦ absurd (ground arith)
  ]

  leaves : leave r addr ≢ none
  leaves q = ground arith

  throws : throw_out r command addr ≢ none
  throws q = ground arith

  respond-none :
      (kind : Kind) → respond r command kind addr now ≡ none → IsStray r command kind addr
  unfolding respond
  respond-none say q = inl (refl, stray_say q, inl (λ k. cc))
  respond-none sayto q = whisper_to-IsStray q
  respond-none rename q = take_name-IsStray q
  respond-none disconn q = absurd (leaves q)
  respond-none kick q = absurd (throws q)
  respond-none conn q = enter-IsStray q
  respond-none mute q = cc
  respond-none unmute q = cc
  respond-none unknown q = cc
  respond-none conn_success q = cc
  respond-none conn_failed q = cc
  respond-none disconn_response q = cc
  respond-none ping q = cc
  respond-none retping q = cc
  respond-none error q = cc

-- A thread of a stranger that will read through NULL.
abbrev Strays : Hall → Event → Type 0
Strays h e =
    (i now : ℕ) × (t : Command × Addr) × (others : List (Command × Addr)) × (e ≡ runs i now)
    × (pick i h.threads ≡ some (t, others))
    × IsStray h.room t.0 t.0.kind t.1

hears_safe :
    (h : Hall) (datagram stack : List ℕ) (addr : Addr)
    → hears h datagram stack addr ≢ HallTurn.crashed
hears_safe h datagram stack addr q =
    let listened = put_entry h.waiting (client_request datagram stack) (some addr) in
    elim (Bool-cases (ltb 0 (length datagram))) [
      | inl b ↦ elim (Option-cases listened) [ inl e ↦ cc | inr (es, e) ↦ cc ]
      | inr b ↦ cc
    ]

takes_up_safe : (h : Hall) (u : Command) (now : ℕ) → takes_up h u now ≢ HallTurn.crashed
takes_up_safe h u now q = elim (Option-cases (get_entry h.waiting)) [
  | inl e ↦ cc
  | inr (es, e) ↦ cc
]

answers_crashed :
    (h : Hall) (i now : ℕ) → answers h i now ≡ HallTurn.crashed → Strays h (runs i now)
answers_crashed h i now q = elim (Option-cases (pick i h.threads)) [
  | inl e ↦ cc
  | inr ((t, others), e) ↦ elim (Option-cases (respond h.room t.0 t.0.kind t.1 now)) [
    | inl e' ↦ (i, now, t, others, refl, e, respond-none h.room t.0 t.1 now t.0.kind e')
    | inr ((room, packets), e') ↦
        let replied : answers h i now
            ≡ HallTurn.done (record h { threads = others; room = room }) packets =
          rw (e, answers) (rw e') in
        cc
  ]
]

hall_crashed : (h : Hall) (e : Event) → hall_turn h e ≡ HallTurn.crashed → Strays h e
unfolding hall_turn
hall_crashed h (listens datagram stack addr) q = absurd (hears_safe h datagram stack addr q)
hall_crashed h (manages uninitialised now) q = absurd (takes_up_safe h uninitialised now q)
hall_crashed h (runs i now) q = answers_crashed h i now q
hall_crashed h (checks now) q = cc

agreed : (t : Turn) (h : HallTurn) → Agrees t h → t ≡ crashed → h ≡ HallTurn.crashed
agreed t HallTurn.blocked a e = cc
agreed t HallTurn.crashed a e = refl
agreed t (HallTurn.done h packets) (v', xs', a, _, _) e = cc

-- A stray command of the room is one of the list.
in_list :
    (xs : List Item) (command : Command) (kind : Kind) (addr : Addr)
    → IsStray (record { members = clients_of xs; history = [] }) command kind addr
    → ((reads_sender kind ≡ true) × (found (from addr) xs ≡ none) × IsHeard xs command kind)
      ⊎ (fits_name command kind ≡ false)
in_list xs command kind addr (inr long) = inr long
in_list xs command kind addr (inl (t, e, inl other)) =
    inl (t, found-clients_of (from addr) xs ∙ e, inl other)
in_list xs command kind addr (inl (t, e, inr (d, e'))) = inl (
  t,
  found-clients_of (from addr) xs ∙ e,
  inr (d, found-clients_of (named (arg command 0)) xs ∙ e'),
)

-- From a server whose parts are in order, an event that crashes it is the run of a thread of a
-- `say` or a `rename` whose sender is not in the client list, of a `sayto` from such a sender to a
-- name that is in it, or of a `conn` or `rename` with a name that does not fit where the handler
-- writes it.
pub turn_crashes :
    (v : Service) (xs : List Item)
    → IsReady v xs
    → (e : Event) → turn v e ≡ crashed
    → (i now : ℕ) × (t : Command × Addr) × (others : List (Command × Addr)) × (e ≡ runs i now)
      × (pick i v.threads ≡ some (t, others))
      × (((reads_sender t.0.kind ≡ true) × (found (from t.1) xs ≡ none) × IsHeard xs t.0 t.0.kind)
          ⊎ (fits_name t.0 t.0.kind ≡ false))
turn_crashes v xs r e q =
    let (i, now, t, others, ran, picked, stray) =
      hall_crashed (hall_of v xs) e
        (agreed (turn v e) (hall_turn (hall_of v xs) e) (turn-Agrees v xs r e) q) in
    (i, now, t, others, ran, picked, in_list xs t.0 t.0.kind t.1 stray)
