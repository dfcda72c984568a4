-- ===== src/Room/Handlers.antt =====
-- The handlers of the server beside the room's answers.
use multithreaded_chat_appli.Base.{
  ==_iff, Bool, Bool-cases, List, Option, Option-cases, [], ap, arith, eq_of_some, false, inl, inr,
  none, refl, some, sym, text, true, ℕ, ◌++◌, ◌==◌, ◌∙◌, ◌≡◌, ◌≢◌,
}
use mathlib.Core.Path.{subst}
use multithreaded_chat_appli.Queue.{Addr}
use multithreaded_chat_appli.Cmd.{
  Kind, conn, say, sayto, mute, unmute, rename, disconn, kick, unknown, conn_success, conn_failed,
  disconn_response, ping, retping, error, Command,
}
use multithreaded_chat_appli.ClientList.{Client}
use multithreaded_chat_appli.ClientList.Chain.{Item}
use multithreaded_chat_appli.ClientList.Refine.{from, named}
use multithreaded_chat_appli.ClientList.Remove.{remove_first}
use multithreaded_chat_appli.Cmd.{name_size}
use multithreaded_chat_appli.Server.{
  fits, answer_size, Server, Packet, Outcome, arg, remember, disconnect, execute, execute_say,
  execute_sayto, execute_kick, connect_to_server, rename_client, relay_mute, relay_unmute,
  handle_unknown_command,
}
use multithreaded_chat_appli.Server.View.{found, admin_address}
use multithreaded_chat_appli.Server.Handlers.{
  execute_say_lem, execute_sayto_lem, said, to_all, whispered,
}
use multithreaded_chat_appli.Server.Members.{
  connect_to_server-long, rename_client-long, connect_to_server_lem, rename_client-none,
  rename_client-some, disconnect-none, disconnect-some, execute_kick_refused, execute_kick_admin,
  refuses, admits,
}
use multithreaded_chat_appli.Server.Valid.{IsValid, length-remember, found-named}
use multithreaded_chat_appli.Room.{
  Room, Answer, find, rules, enter, speak, whisper_to, leave, take_name, throw_out, respond,
}
use multithreaded_chat_appli.Room.Members.{
  clients_of, clients_of-append, found-clients_of, change-clients_of, expel-clients_of,
  rules-clients_of, announce-clients_of,
}

-- The room that a server keeps.
abbrev pub room_of : Server → List Item → Room
room_of s xs = record { members = clients_of xs; history = s.chat_history }

-- A run of a handler shows what the room answers: a crash for a crash, else the same packets and
-- a well-formed server that keeps the new room.
abbrev pub Shows : Outcome → Answer → Type 0
Shows o none = o ≡ none
Shows o (some (r, packets)) =
    (s' : Server) × (xs' : List Item) × (o ≡ some (s', packets))
    × IsValid s' xs'
    × (room_of s' xs' ≡ r)

pub Shows-none : (o : Outcome) (a : Answer) → o ≡ none → a ≡ none → Shows o a
Shows-none o a e e' = subst (Shows o) (sym e') e

pub Shows-some :
    (o : Outcome) (a : Answer) (s' : Server) (xs' : List Item) (packets : List Packet)
    → o ≡ some (s', packets)
    → IsValid s' xs'
    → a ≡ some (room_of s' xs', packets)
    → Shows o a
Shows-some o a s' xs' packets e v e' = subst (Shows o) (sym e') (s', xs', e, v, refl)

other_address : (a addr : Addr) → a == addr ≡ false → some a ≢ some addr
other_address a addr n e = ground (arith, ==_iff a addr, eq_of_some a addr e)

module _ (s : Server) (xs : List Item) (v : IsValid s xs) (command : Command) (addr : Addr) where
  -- The sender as the server and the room find it.
  in_room :
      (test : Client → Bool) {o : Option Client} → found test xs ≡ o → find test (clients_of xs) ≡ o
  in_room test e = sym (found-clients_of test xs) ∙ e

  enter_shown :
      (now : ℕ)
      → Shows (connect_to_server s command addr now) (enter (room_of s xs) command addr now)
  enter_shown now = elim (Bool-cases (fits answer_size (text "connsuccess$ " ++ arg command 0))) [
    | inl h ↦
        let (l', e, r') = connect_to_server_lem s xs v.linked command addr now h in
        Shows-some (connect_to_server s command addr now) (enter (room_of s xs) command addr now) _
          _ _ e (record { linked = r'; room = v.room })
          (rw (h, enter) (rw (clients_of-append xs _) refl))
    | inr h ↦
        Shows-none (connect_to_server s command addr now) (enter (room_of s xs) command addr now)
          (connect_to_server-long s xs v.linked command addr now h) (rw (h, enter))
  ]

  speak_shown : Shows (execute_say s command addr) (speak (room_of s xs) command addr)
  speak_shown = elim (Option-cases (found (from addr) xs)) [
    | inl e ↦
        Shows-none (execute_say s command addr) (speak (room_of s xs) command addr)
          (execute_say_lem s xs v.linked command addr ∙ rw e) (rw (in_room (from addr) e, speak))
    | inr (c, e) ↦
        Shows-some (execute_say s command addr) (speak (room_of s xs) command addr)
          (record s { chat_history = remember s.chat_history (said command c) }) xs
          (to_all (text "say$ " ++ said command c) xs)
          (execute_say_lem s xs v.linked command addr ∙ rw e)
          (record {
            linked = v.linked;
            room = length-remember s.chat_history (said command c) v.room;
          })
          (rw (in_room (from addr) e, speak)
            (rw (announce-clients_of (text "say$ " ++ said command c) xs)))
  ]

  whisper_shown : Shows (execute_sayto s command addr) (whisper_to (room_of s xs) command addr)
  whisper_shown = elim (Option-cases (found (from addr) xs)) [
    | inl e ↦ elim (Option-cases (found (named (arg command 0)) xs)) [
      | inl e' ↦
          Shows-some (execute_sayto s command addr) (whisper_to (room_of s xs) command addr) s xs []
            (execute_sayto_lem s xs v.linked command addr ∙ rw (e, e')) v
            (rw (in_room (from addr) e, whisper_to) (rw (in_room (named (arg command 0)) e')))
      | inr (d, e') ↦
          Shows-none (execute_sayto s command addr) (whisper_to (room_of s xs) command addr)
            (execute_sayto_lem s xs v.linked command addr ∙ rw (e, e'))
            (rw (in_room (from addr) e, whisper_to) (rw (in_room (named (arg command 0)) e')))
    ]
    | inr (c, e) ↦
        Shows-some (execute_sayto s command addr) (whisper_to (room_of s xs) command addr) s xs
          (whispered command c (found (named (arg command 0)) xs))
          (execute_sayto_lem s xs v.linked command addr ∙ rw e) v
          (rw (in_room (from addr) e, whisper_to)
            (rw (found-clients_of (named (arg command 0)) xs)))
  ]

  leave_shown : Shows (disconnect s addr) (leave (room_of s xs) addr)
  leave_shown = elim (Option-cases (found (from addr) xs)) [
    | inl e ↦
        Shows-some (disconnect s addr) (leave (room_of s xs) addr) s xs []
          (disconnect-none s xs v.linked command addr e) v (rw (in_room (from addr) e, leave))
    | inr (c, e) ↦
        let (d, e') = found-named (from addr) xs c e in
        let (l', done, r') = disconnect-some s xs v.linked command addr c d e e' in
        Shows-some (disconnect s addr) (leave (room_of s xs) addr) _ _ _ done
          (record { linked = r'; room = v.room })
          (rw (in_room (from addr) e, leave)
            (rw (in_room (named c.client_name) e') (rw (expel-clients_of c.client_name xs))))
  ]

  take_name_shown : Shows (rename_client s command addr) (take_name (room_of s xs) command addr)
  take_name_shown = elim (Option-cases (found (from addr) xs)) [
    | inl e ↦
        Shows-none (rename_client s command addr) (take_name (room_of s xs) command addr)
          (rename_client-none s xs v.linked command addr e) (rw (in_room (from addr) e, take_name))
    | inr (c, e) ↦ elim (Bool-cases (fits name_size (arg command 0))) [
      | inl h ↦
          let (l', done, r') = rename_client-some s xs v.linked command addr c e h in
          Shows-some (rename_client s command addr) (take_name (room_of s xs) command addr) _ _ _
            done (record { linked = r'; room = v.room })
            (rw (in_room (from addr) e, take_name)
              (rw h (
                rw (
                  change-clients_of (from addr) (λ d. record d { client_name = arg command 0 })
                    xs))))
      | inr h ↦
          Shows-none (rename_client s command addr) (take_name (room_of s xs) command addr)
            (rename_client-long s xs v.linked command addr h)
            (rw (in_room (from addr) e, take_name) (rw h))
    ]
  ]

  kick_refused_shown :
      admin_address xs ≢ some addr
      → Shows (execute_kick s command addr) (throw_out (room_of s xs) command addr)
  kick_refused_shown h =
      let ruled : rules (clients_of xs) addr ≡ false =
        rules-clients_of xs addr ∙ refuses (admin_address xs) addr h in
      Shows-some (execute_kick s command addr) (throw_out (room_of s xs) command addr) s xs _
        (execute_kick_refused s xs v.linked command addr h) v (rw (ruled, throw_out))

  kick_shown :
      admin_address xs ≡ some addr
      → Shows (execute_kick s command addr) (throw_out (room_of s xs) command addr)
  kick_shown h =
      let (l', done, r') = execute_kick_admin s xs v.linked command addr h in
      let ruled : rules (clients_of xs) addr ≡ true =
        rules-clients_of xs addr ∙ admits (admin_address xs) addr h in
      Shows-some (execute_kick s command addr) (throw_out (room_of s xs) command addr) _ _ _ done
        (record { linked = r'; room = v.room })
        (rw (ruled, throw_out)
          (elim (Option-cases (found (named (arg command 0)) xs)) [
            | inl e ↦
                rw (in_room (named (arg command 0)) e)
                  (rw e (rw (expel-clients_of (arg command 0) xs)))
            | inr (d, e) ↦ rw (in_room (named (arg command 0)) e) (
                rw e (
                  rw
                    (announce-clients_of
                      (text "say$ SERVER: " ++ (arg command 0 ++ text " has been kicked"))
                      (remove_first (arg command 0) xs))
                    (rw (expel-clients_of (arg command 0) xs))))
          ]))

  pub execute_shown :
      (kind : Kind) (now : ℕ)
      → Shows (execute s command kind addr now) (respond (room_of s xs) command kind addr now)
  unfolding execute respond relay_mute relay_unmute handle_unknown_command
  execute_shown conn now = enter_shown now
  execute_shown say now = speak_shown
  execute_shown sayto now = whisper_shown
  execute_shown disconn now = leave_shown
  execute_shown rename now = take_name_shown
  execute_shown kick now = elim (Option-cases (admin_address xs)) [
    | inl e ↦ kick_refused_shown (λ e'. cc)
    | inr (a, e) ↦ elim (Bool-cases (a == addr)) [
      | inl y ↦ kick_shown (e ∙ ap some ((==_iff a addr).0 y))
      | inr n ↦ kick_refused_shown (λ e'. other_address a addr n (sym e ∙ e'))
    ]
  ]
  execute_shown mute now = (s, xs, refl, v, refl)
  execute_shown unmute now = (s, xs, refl, v, refl)
  execute_shown unknown now = (s, xs, refl, v, refl)
  execute_shown conn_success now = (s, xs, refl, v, refl)
  execute_shown conn_failed now = (s, xs, refl, v, refl)
  execute_shown disconn_response now = (s, xs, refl, v, refl)
  execute_shown ping now = (s, xs, refl, v, refl)
  execute_shown retping now = (s, xs, refl, v, refl)
  execute_shown error now = (s, xs, refl, v, refl)
