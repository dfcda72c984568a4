-- ===== src/Delivery/Chat.antt =====
-- A line of chat, from the sender's packet over the server to the clients' displays.
use multithreaded_chat_appli.Base.{
  List, Text, [], ap, append_assoc, arith, length, length-append, map, replicate, some, sym,
  take_self, text, ℕ, ◌++◌, ◌+◌, ◌-◌, ◌<◌, ◌∙◌, ◌∷◌, ◌≡◌,
}
use multithreaded_chat_appli.CString.{space}
use multithreaded_chat_appli.Queue.{Addr}
use multithreaded_chat_appli.Cmd.{
  Command, max_message, max_cmd_size, response_buffer_size, command_handler,
}
use multithreaded_chat_appli.ClientList.{Client}
use multithreaded_chat_appli.ClientList.Chain.{Item}
use multithreaded_chat_appli.ClientList.Refine.{Represents, from}
use multithreaded_chat_appli.Join.{join_args}
use multithreaded_chat_appli.Join.Unwords.{unwords, glue, filled, filled-append_nil}
use multithreaded_chat_appli.Join.Laws.{join_args-unwords}
use multithreaded_chat_appli.Server.{
  Outcome, Server, packet, snprintf, remember, max_msgs, max_name_len, execute_say,
}
use multithreaded_chat_appli.Server.View.{found, addresses}
use multithreaded_chat_appli.Server.Handlers.{execute_say_lem, said}
use multithreaded_chat_appli.Client.{ChatClient, handle_cli_side_cmd}
use multithreaded_chat_appli.Client.Valid.{IsSound}
use multithreaded_chat_appli.Delivery.{
  tokens_of, Suits, command_handler-request, say-IsKeyword, handle_cli_side_cmd-line,
}

-- The line of a sender: its name with a colon, then the words.
abbrev pub line : Text → List Text → List Text
line name ws = (name ++ text ":") ∷ ws

module _ (s : Server) (xs : List Item) (r : Represents s.clients xs) (addr : Addr) (sender : Client)
    (here : found (from addr) xs ≡ some sender) (w : Text) (ws : List Text)
    (suits : Suits (line sender.client_name (w ∷ ws)))
    (short : length (unwords (w ∷ ws)) < max_message - 1) (uninitialised : Command)
    (rest : List ℕ) where
  words_suit : Suits (w ∷ ws)
  words_suit = record {
    are_words = suits.are_words.1;
    fit = suits.fit.1;
    few = omega (arith, suits.few);
  }

  -- The command that the server makes of the sender's packet.
  abbrev request : Command
  request =
      command_handler uninitialised (tokens_of ((text "say$ " ++ unwords (w ∷ ws)) ++ (0 ∷ rest)))

  slots_joined : join_args (request.args) 0 max_message ≡ unwords (w ∷ ws)
  slots_joined =
      ap (λ (c : Command). join_args c.args 0 max_message)
        (command_handler-request uninitialised (text "say") (w ∷ ws) rest say-IsKeyword words_suit)
      ∙ join_args-unwords slots 0 max_message (rw back short)
      ∙ ap unwords back
    where
      slots : List Text
      slots = (w ∷ ws) ++ ([] ∷ replicate (max_cmd_size - 1 - length (w ∷ ws)) [])

      back : filled slots ≡ w ∷ ws
      back = filled-append_nil (w ∷ ws) _ suits.are_words.1

  line_eq :
      sender.client_name ++ (text ": " ++ unwords (w ∷ ws))
      ≡ unwords (line sender.client_name (w ∷ ws))
  unfolding unwords glue
  line_eq = sym (append_assoc sender.client_name (text ":") (space ∷ (w ++ glue ws)))

  line_short : length (unwords (line sender.client_name (w ∷ ws))) < 275
  line_short = rw (← line_eq) (
      omega (
        arith,
        suits.fit.0,
        length-append sender.client_name (text ":"),
        length-append sender.client_name (text ": " ++ unwords (w ∷ ws)),
      ))

  said-line : said request sender ≡ unwords (line sender.client_name (w ∷ ws))
  unfolding snprintf
  said-line =
      ap
        (λ (m : Text).
          snprintf (max_message + max_name_len + 2) (sender.client_name ++ (text ": " ++ m)))
        slots_joined
      ∙ ap (snprintf (max_message + max_name_len + 2)) line_eq
      ∙ take_self (max_message + max_name_len + 2 - 1) (unwords (line sender.client_name (w ∷ ws)))
          (omega (arith, line_short))

  -- The words of a client's `say$` request, cut by the server's queue and parser, go to every
  -- client in the list behind the sender's name, and a client with a free slot that gets such a
  -- packet stores just that line, where the server's list is well linked and the sender in it, the
  -- client is within its bounds, every word and the name with its colon have less than twenty
  -- bytes, there are at most forty-eight words with the name, and less than 255 bytes of text.
  pub say_delivered :
      (client : ChatClient) (rest' : List ℕ)
      → IsSound client
      → length client.messages < max_msgs
      → (execute_say s request addr
          ≡ some (
            record s {
              chat_history = remember s.chat_history (unwords (line sender.client_name (w ∷ ws)));
            },
            map
                (packet response_buffer_size
                  (text "say$ " ++ unwords (line sender.client_name (w ∷ ws))))
                (addresses xs),
          ))
        × (handle_cli_side_cmd client uninitialised (
              tokens_of
                ((text "say$ " ++ unwords (line sender.client_name (w ∷ ws))) ++ (0 ∷ rest')))
            ≡ some (record client {
              messages = client.messages ++ (unwords (line sender.client_name (w ∷ ws)) ∷ []);
            }))
  unfolding snprintf
  say_delivered client rest' sound room = (
    execute_say_lem s xs r request addr ∙ rw here (rw said-line (ap sent uncut)),
    handle_cli_side_cmd-line client uninitialised (line sender.client_name (w ∷ ws)) rest' sound
        room suits (omega (arith, line_short)),
  )
    where
      uncut :
          snprintf response_buffer_size (text "say$ " ++ unwords (line sender.client_name (w ∷ ws)))
          ≡ text "say$ " ++ unwords (line sender.client_name (w ∷ ws))
      uncut =
          take_self (response_buffer_size - 1)
            (text "say$ " ++ unwords (line sender.client_name (w ∷ ws))) (omega (arith, line_short))

      sent : Text → Outcome
      sent body = some (
        record s {
          chat_history = remember s.chat_history (unwords (line sender.client_name (w ∷ ws)));
        },
        map (packet response_buffer_size body) (addresses xs),
      )
