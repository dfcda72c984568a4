-- ===== src/Service/Fine.antt =====
-- What the events of the hall keep and send, where its names, lines and waiting commands fit.
use multithreaded_chat_appli.Base.{
  All, All-append, All-pick, Bool-cases, List, Option-cases, Picked, Text, [], arith, inl, inr,
  length, ltb, pick, some, ℕ, ◌<◌, ◌==◌, ◌∷◌,
}
use mathlib.Core.Path.{subst}
use multithreaded_chat_appli.Queue.{Addr}
use multithreaded_chat_appli.Queue.Refine.{put_entry, get_entry}
use multithreaded_chat_appli.Cmd.{Kind, conn, Command, name_size, command_handler, max_cmd_size}
use multithreaded_chat_appli.Cmd.Args.{fill_args-fits}
use multithreaded_chat_appli.ClientList.{Client}
use multithreaded_chat_appli.ClientList.Refine.{from}
use multithreaded_chat_appli.Activity.{is_late}
use multithreaded_chat_appli.Delivery.Survive.{ping-IsMild, disconnresponse-IsMild}
use multithreaded_chat_appli.Room.{Room, find, respond, note_activity, look_round}
use multithreaded_chat_appli.Room.Packets.{IsBounded, IsGood, IsFine, change-All, expel-All}
use multithreaded_chat_appli.Room.Fine.{respond_fine}
use multithreaded_chat_appli.Service.Rounds.{look_round_ping, look_round_kick}
use multithreaded_chat_appli.Service.{
  Event, listens, manages, runs, checks, has_thread, client_request, started,
}
use multithreaded_chat_appli.Service.Hall.{
  Hall, HallTurn, hall_turn, hears, takes_up, answers, looks,
}

-- Every word is terminated inside its slot.
abbrev pub IsCut : Command → Type 0
IsCut command = All (λ w. length w < name_size) command.args

pub record IsOrderly (h : Hall) : Type 0 where
  pub threads : All (λ t. IsCut t.0) h.threads
  pub room : IsBounded h.room

-- The memory that `malloc` gives is terminated in its slots, as far as it is read.
abbrev pub IsSane : Event → Type 0
IsSane (manages uninitialised now) = IsCut uninitialised
IsSane _ = Unit

abbrev pub IsFineTurn : HallTurn → Type 0
IsFineTurn HallTurn.blocked = Unit
IsFineTurn HallTurn.crashed = Unit
IsFineTurn (HallTurn.done h packets) = IsOrderly h × All IsGood packets

command_handler-IsCut :
    (u : Command) (words : List Text) → IsCut u → IsCut (command_handler u words)
unfolding command_handler
command_handler-IsCut u [] h = h
command_handler-IsCut u (word ∷ words) h = fill_args-fits max_cmd_size words

started-IsCut :
    (command : Command) (addr : Addr) → IsCut command → All (λ t. IsCut t.0) (started command addr)
started-IsCut command addr h = elim (Bool-cases (has_thread command.kind)) [
  | inl y ↦ rw (y, started) (h, tt)
  | inr n ↦ rw (n, started) tt
]

abbrev HasName : Client → Type 0
HasName c = length c.client_name < name_size

note_activity-IsBounded :
    (r : Room) (kind : Kind) (addr : Addr) (now : ℕ)
    → IsBounded r
    → IsBounded (note_activity r kind addr now)
unfolding note_activity
note_activity-IsBounded r conn addr now b = b
note_activity-IsBounded r _ addr now b = record {
  names = change-All HasName (from addr) _ r.members (λ c h. h) b.names;
  lines = b.lines;
}

look_fine :
    (r : Room) (now : ℕ)
    → IsBounded r
    → IsBounded (look_round r now).0 × All IsGood (look_round r now).1
unfolding look_round
look_fine r now b = elim (Option-cases (find (is_late now) r.members)) [
  | inl e ↦ rw (e, look_round) (b, tt)
  | inr (c, e) ↦ elim (Bool-cases (c.ping_sent == 0)) [
    | inl y ↦ rw (look_round_ping r now c e y) (
      record {
        names = change-All HasName (is_late now) _ r.members (λ d h. h) b.names;
        lines = b.lines;
      },
      ((omega arith, omega arith, ping-IsMild), tt),
    )
    | inr n ↦ rw (look_round_kick r now c e n) (
      record { names = expel-All HasName c.client_name r.members b.names; lines = b.lines },
      ((omega arith, omega arith, disconnresponse-IsMild), tt),
    )
  ]
]

module _ (h : Hall) (o : IsOrderly h) where
  hears_fine : (datagram stack : List ℕ) (addr : Addr) → IsFineTurn (hears h datagram stack addr)
  hears_fine datagram stack addr = elim (Bool-cases (ltb 0 (length datagram))) [
    | inr n ↦ rw (n, hears) (o, tt)
    | inl y ↦
        elim (Option-cases (put_entry h.waiting (client_request datagram stack) (some addr))) [
          | inl e ↦ rw (y, hears) (rw e tt)
          | inr (es, e) ↦ rw (y, hears) (rw e (record { threads = o.threads; room = o.room }, tt))
        ]
  ]

  takes_up_fine : (u : Command) (now : ℕ) → IsCut u → IsFineTurn (takes_up h u now)
  takes_up_fine u now cut = elim (Option-cases (get_entry h.waiting)) [
    | inl e ↦ rw (e, takes_up) tt
    | inr ((words, sender, es), e) ↦
        let command = command_handler u words in
        rw (e, takes_up)
          (
            record {
              threads =
                  All-append _ h.threads (started command sender) o.threads
                    (started-IsCut command sender (command_handler-IsCut u words cut));
              room = note_activity-IsBounded h.room command.kind sender now o.room;
            },
            tt,
          )
  ]

  answers_fine : (i now : ℕ) → IsFineTurn (answers h i now)
  answers_fine i now = elim (Option-cases (pick i h.threads)) [
    | inl e ↦ rw (e, answers) tt
    | inr ((t, others), e) ↦
        let (cut, cuts) =
          subst (Picked (λ t. IsCut t.0)) e (All-pick (λ t. IsCut t.0) i h.threads o.threads) in
        let fine = respond_fine h.room o.room t.0 cut t.1 now t.0.kind in
        elim (Option-cases (respond h.room t.0 t.0.kind t.1 now)) [
          | inl e' ↦ rw (e, answers) (rw e' tt)
          | inr ((room, packets), e') ↦
              let (b, good) = subst IsFine e' fine in
              rw (e, answers) (rw e' (record { threads = cuts; room = b }, good))
        ]
  ]

  looks_fine : (now : ℕ) → IsFineTurn (looks h now)
  looks_fine now =
      let (b, good) = look_fine h.room now o.room in
      (record { threads = o.threads; room = b }, good)

  pub turn_fine : (e : Event) → IsSane e → IsFineTurn (hall_turn h e)
  unfolding hall_turn
  turn_fine (listens datagram stack addr) sane = hears_fine datagram stack addr
  turn_fine (manages u now) sane = takes_up_fine u now sane
  turn_fine (runs i now) sane = answers_fine i now
  turn_fine (checks now) sane = looks_fine now
