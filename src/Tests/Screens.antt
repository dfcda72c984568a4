-- ===== src/Tests/Screens.antt =====
-- Tests of the clients, and of a line of chat on its whole way.
use multithreaded_chat_appli.Base.{[], arith, map, refl, replicate, some, text, ◌++◌, ◌-◌, ◌∷◌, ◌≡◌}
use multithreaded_chat_appli.Cmd.{
  Command, unknown, kind_of, max_cmd_size, response_buffer_size, command_handler,
}
use multithreaded_chat_appli.Join.Unwords.{unwords, glue, filled}
use multithreaded_chat_appli.Server.{max_msgs, packet, remember, execute_say}
use multithreaded_chat_appli.Server.View.{addresses}
use multithreaded_chat_appli.Client.{ChatClient, handle_cli_side_cmd}
use multithreaded_chat_appli.Client.Valid.{Fits}
use multithreaded_chat_appli.Delivery.{tokens_of, IsKeyword, Suits, command_handler-request}
use multithreaded_chat_appli.Delivery.Chat.{line, say_delivered}
use multithreaded_chat_appli.Tests.Data.{
  ada, two_clients-Represents, two_items, chat_room, viewer, viewer-IsSound,
}

abbrev unset : Command
unset = record { kind = unknown; args = [] }

abbrev full_viewer : ChatClient
full_viewer = record viewer { messages = replicate max_msgs (text "hi") }

bob_says-Fits : Fits (text "bob:" ∷ text "hi" ∷ [] ∷ [])
unfolding unwords glue filled
bob_says-Fits = record {
  words = (omega arith, (omega arith, (omega arith, tt)));
  empty = tt;
  short = omega arith;
}

kick-IsKeyword : IsKeyword (text "kick")
kick-IsKeyword = (
  (
    (omega arith, omega arith),
    ((omega arith, omega arith), ((omega arith, omega arith), ((omega arith, omega arith), tt))),
  ),
  (omega arith, (omega arith, (omega arith, (omega arith, tt)))),
)

eve-Suits : Suits (text "eve" ∷ [])
eve-Suits = record {
  are_words = (
    ((omega arith, omega arith), ((omega arith, omega arith), ((omega arith, omega arith), tt))),
    tt,
  );
  fit = (omega arith, tt);
  few = omega arith;
}

command_handler-request_example :
    command_handler unset
      (tokens_of ((text "kick" ++ (text "$ " ++ unwords (text "eve" ∷ []))) ++ (0 ∷ [])))
    ≡ record {
      kind = kind_of (text "kick");
      args = text "eve" ∷ [] ∷ replicate (max_cmd_size - 2) [];
    }
command_handler-request_example =
    command_handler-request unset (text "kick") (text "eve" ∷ []) [] kick-IsKeyword eve-Suits

-- The words of ada's line `hi`.
adas_line-Suits : Suits (line (text "ada") (text "hi" ∷ []))
adas_line-Suits = record {
  are_words = (
    (
      (omega arith, omega arith),
      ((omega arith, omega arith), ((omega arith, omega arith), ((omega arith, omega arith), tt))),
    ),
    (((omega arith, omega arith), ((omega arith, omega arith), tt)), tt),
  );
  fit = (omega arith, (omega arith, tt));
  few = omega arith;
}

say_delivered_example :
    (execute_say chat_room
        (command_handler unset (tokens_of ((text "say$ " ++ unwords (text "hi" ∷ [])) ++ (0 ∷ []))))
        11
      ≡ some (
        record chat_room {
          chat_history = remember [] (unwords (line (text "ada") (text "hi" ∷ [])));
        },
        map
            (packet response_buffer_size
              (text "say$ " ++ unwords (line (text "ada") (text "hi" ∷ []))))
            (addresses two_items),
      ))
    × (handle_cli_side_cmd viewer unset
          (tokens_of ((text "say$ " ++ unwords (line (text "ada") (text "hi" ∷ []))) ++ (0 ∷ [])))
        ≡ some (record viewer {
          messages = viewer.messages ++ (unwords (line (text "ada") (text "hi" ∷ [])) ∷ []);
        }))
unfolding unwords glue
say_delivered_example =
    say_delivered chat_room two_items two_clients-Represents 11 ada refl (text "hi") []
      adas_line-Suits (omega arith) unset [] viewer [] viewer-IsSound (omega arith)
