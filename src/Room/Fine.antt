-- ===== src/Room/Fine.antt =====
-- The room's answers, within the bounds of what it keeps and sends.
use multithreaded_chat_appli.Base.{
  All, All-append, All-get_or, Bool-cases, Option, Option-cases, Text, [], arith, inl, inr, length,
  length-append, length-take, none, some, text, ℕ, ◌++◌, ◌<◌, ◌∷◌, ◌≤◌,
}
use multithreaded_chat_appli.Server.{fits, answer_size}
use multithreaded_chat_appli.Cmd.{name_size}
use multithreaded_chat_appli.Queue.{Addr, queue_msg_size}
use multithreaded_chat_appli.Cmd.{
  Kind, conn, say, sayto, mute, unmute, rename, disconn, kick, unknown, conn_success, conn_failed,
  disconn_response, ping, retping, error, Command, name_size, max_message, response_buffer_size,
}
use multithreaded_chat_appli.ClientList.{Client, new_client}
use multithreaded_chat_appli.ClientList.Refine.{named, from}
use multithreaded_chat_appli.Join.Spans.{join_args-IsTight}
use multithreaded_chat_appli.Server.{packet, arg, snprintf, recent_history}
use multithreaded_chat_appli.Server.Handlers.{said, whispered, whisper}
use multithreaded_chat_appli.Server.Members.{farewell}
use multithreaded_chat_appli.Delivery.Survive.{
  IsMild, say-IsMild, error-IsMild, mute-IsMild, unmute-IsMild, rename-IsMild, connsuccess-IsMild,
  disconnresponse-IsMild,
}
use multithreaded_chat_appli.Room.{
  Room, find, expel, announce, rules, enter, speak, whisper_to, leave, take_name, throw_out,
  respond,
}
use multithreaded_chat_appli.Room.Packets.{
  IsBounded, IsGood, IsFine, printed, find-All, change-All, expel-All, announced, All-drop,
  length-said, remember-All, replayed,
}
use multithreaded_chat_appli.Room.Private.{private-IsGood}

abbrev HasName : Client → Type 0
HasName c = length c.client_name < name_size

module _ (r : Room) (b : IsBounded r) (command : Command)
    (cut : All (λ w. length w < name_size) command.args) (addr : Addr) (now : ℕ) where
  first : length (arg command 0) < name_size
  first = All-get_or (λ w. length w < name_size) command.args 0 [] (omega arith) cut

  -- A short answer to the sender.
  kept :
      (bytes : ℕ) (body : Text)
      → length body < bytes
      → bytes ≤ queue_msg_size
      → IsMild body
      → IsFine (some (r, packet bytes (snprintf bytes body) addr ∷ []))
  kept bytes body h h' m = (b, (printed bytes body addr h h' m, tt))

  told : (a : Addr) → IsGood (farewell a)
  told a = (omega arith, omega arith, disconnresponse-IsMild)

  enter_fine : IsFine (enter r command addr now)
  unfolding new_client recent_history
  enter_fine = elim (Bool-cases (fits answer_size (text "connsuccess$ " ++ arg command 0))) [
    | inr h ↦ rw (h, enter) tt
    | inl h ↦
        rw (h, enter)
          (
            record {
              names =
                  All-append HasName r.members _ b.names
                    (omega (arith, length-take 19 (arg command 0)), tt);
              lines = b.lines;
            },
            (
              (
                omega (arith, first),
                omega arith,
                connsuccess-IsMild (arg command 0) (omega (arith, first)),
              ),
              replayed addr (recent_history r.history) (All-drop _ _ r.history b.lines),
            ),
          )
  ]

  speak_fine : IsFine (speak r command addr)
  speak_fine = elim (Option-cases (find (from addr) r.members)) [
    | inl e ↦ rw (e, speak) tt
    | inr (c, e) ↦
        rw (e, speak)
          (
            record {
              names = b.names;
              lines = remember-All r.history (said command c) (length-said command c) b.lines;
            },
            announced (text "say$ " ++ said command c) r.members
                (omega (arith, length-said command c))
                (say-IsMild (said command c) (omega (arith, length-said command c))),
          )
  ]

  whispered-IsGood :
      (c : Client) (o : Option Client) → HasName c → All IsGood (whispered command c o)
  whispered-IsGood c none h =
      let size = length-append (arg command 0) (text ")") in
      let body = text "User not found. (" ++ (arg command 0 ++ text ")") in
      (
        printed response_buffer_size (text "error$ " ++ body) c.client_address
            (omega (arith, first, size)) (omega arith)
            (error-IsMild body (omega (arith, first, size))),
        tt,
      )
  whispered-IsGood c (some d) h =
      let tight = join_args-IsTight command.args 1 max_message (omega arith) in
      (
        private-IsGood [] c.client_name (whisper command) d.client_address (omega arith) h tight,
        (
          private-IsGood (text "you to ") (arg command 0) (whisper command) c.client_address
              (omega arith) first tight,
          tt,
        ),
      )

  whisper_fine : IsFine (whisper_to r command addr)
  whisper_fine = elim (Option-cases (find (from addr) r.members)) [
    | inl e ↦ elim (Option-cases (find (named (arg command 0)) r.members)) [
      | inl e' ↦ rw (e, whisper_to) (rw e' (b, tt))
      | inr (d, e') ↦ rw (e, whisper_to) (rw e' tt)
    ]
    | inr (c, e) ↦
        let h : HasName c = find-All HasName (from addr) r.members b.names e in
        rw (e, whisper_to) (b, whispered-IsGood c (find (named (arg command 0)) r.members) h)
  ]

  leave_fine : IsFine (leave r addr)
  leave_fine = elim (Option-cases (find (from addr) r.members)) [
    | inl e ↦ rw (e, leave) (b, tt)
    | inr (c, e) ↦ elim (Option-cases (find (named c.client_name) r.members)) [
      | inl e' ↦ rw (e, leave) (rw e' (b, tt))
      | inr (d, e') ↦
          rw (e, leave)
            (rw e' (
              record { names = expel-All HasName c.client_name r.members b.names; lines = b.lines },
              (told d.client_address, tt),
            ))
    ]
  ]

  take_name_fine : IsFine (take_name r command addr)
  take_name_fine = elim (Option-cases (find (from addr) r.members)) [
    | inl e ↦ rw (e, take_name) tt
    | inr (c, e) ↦ elim (Bool-cases (fits name_size (arg command 0))) [
      | inr h ↦ rw (e, take_name) (rw h tt)
      | inl h ↦
          rw (e, take_name)
            (rw h (
              record {
                names = change-All HasName (from addr) _ r.members (λ d h. first) b.names;
                lines = b.lines;
              },
              (
                printed max_message (text "rename$ " ++ arg command 0) addr (omega (arith, first))
                    (omega arith) (rename-IsMild (arg command 0) (omega (arith, first))),
                tt,
              ),
            ))
    ]
  ]

  thrown : All IsGood (
      announce
        (text "say$ SERVER: " ++ (arg command 0 ++ text " has been kicked"))
        (expel (arg command 0) r.members))
  thrown =
      let size = length-append (arg command 0) (text " has been kicked") in
      announced (text "say$ SERVER: " ++ (arg command 0 ++ text " has been kicked")) _
        (omega (arith, first, size))
        (say-IsMild (text "SERVER: " ++ (arg command 0 ++ text " has been kicked"))
          (omega (arith, first, size)))

  throw_out_fine : IsFine (throw_out r command addr)
  throw_out_fine = elim (Bool-cases (rules r.members addr)) [
    | inr n ↦
        rw (n, throw_out)
          (kept max_message (text "error$ Permission denied. Only admin can kick users.")
            (omega arith) (omega arith)
            (error-IsMild (text "Permission denied. Only admin can kick users.") (omega arith)))
    | inl y ↦ elim (Option-cases (find (named (arg command 0)) r.members)) [
      | inl e ↦
          rw (y, throw_out)
            (rw e (
              record {
                names = expel-All HasName (arg command 0) r.members b.names;
                lines = b.lines;
              },
              tt,
            ))
      | inr (d, e) ↦
          rw (y, throw_out)
            (rw e (
              record {
                names = expel-All HasName (arg command 0) r.members b.names;
                lines = b.lines;
              },
              (told d.client_address, thrown),
            ))
    ]
  ]

  pub respond_fine : (kind : Kind) → IsFine (respond r command kind addr now)
  unfolding respond
  respond_fine conn = enter_fine
  respond_fine say = speak_fine
  respond_fine sayto = whisper_fine
  respond_fine disconn = leave_fine
  respond_fine rename = take_name_fine
  respond_fine kick = throw_out_fine
  respond_fine mute =
      kept max_message (text "mute$ " ++ arg command 0) (omega (arith, first)) (omega arith)
        (mute-IsMild (arg command 0) (omega (arith, first)))
  respond_fine unmute =
      kept max_message (text "unmute$ " ++ arg command 0) (omega (arith, first)) (omega arith)
        (unmute-IsMild (arg command 0) (omega (arith, first)))
  respond_fine unknown =
      (b, ((omega arith, omega arith, error-IsMild (text "Unknown command") (omega arith)), tt))
  respond_fine conn_success = (b, tt)
  respond_fine conn_failed = (b, tt)
  respond_fine disconn_response = (b, tt)
  respond_fine ping = (b, tt)
  respond_fine retping = (b, tt)
  respond_fine error = (b, tt)
