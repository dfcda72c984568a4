-- ===== src/Tests/Inputs.antt =====
-- Tests of the lines that a user types.
use multithreaded_chat_appli.Base.{
  [], arith, false, refl, replicate, same, text, ◌++◌, ◌-◌, ◌∷◌, ◌≡◌,
}
use multithreaded_chat_appli.Cmd.{Command, conn, unknown, max_cmd_size, command_handler}
use multithreaded_chat_appli.Delivery.{tokens_of}
use multithreaded_chat_appli.Client.Input.{
  send, complain, send_exit, before_newline, asks_connection, user_input_pre_connection, user_input,
}
use multithreaded_chat_appli.Client.Input.Requests.{connection_requested}

abbrev unset : Command
unset = record { kind = unknown; args = [] }

connection_requested_example :
    (user_input_pre_connection false ((text "conn$ al") ++ (10 ∷ [])) ≡ send (text "conn$ al"))
    × (command_handler unset (tokens_of ((text "conn$ al") ++ (0 ∷ [])))
        ≡ record { kind = conn; args = text "al" ∷ [] ∷ replicate (max_cmd_size - 2) [] })
connection_requested_example =
    connection_requested b'a' (text "l") unset []
      ((omega arith, omega arith), ((omega arith, omega arith), tt))
      (omega arith, (omega arith, tt)) (omega arith)

-- Chat is refused before the connection, and leaving tells the server behind it.
refused : user_input_pre_connection false (text "say$ hi") ≡ complain (text "Error: Not connected.")
unfolding user_input_pre_connection asks_connection before_newline same
refused = refl

leaves : user_input (text ":q") ≡ send_exit (text "disconn$")
unfolding user_input before_newline same
leaves = refl
