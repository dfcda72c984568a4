-- ===== src/Client/Input.antt =====
-- client_interface.c: what the two input threads do with a line, by whether the client is
-- connected when it is read. The terminal's text is an argument, and what a thread does a value.
pub mod Requests
use multithreaded_chat_appli.Base.{
  Bool, Text, [], drop, if◌then◌else◌, length, ltb, same, take, text, ℕ, ◌++◌, ◌==◌, ◌∷◌,
}
use multithreaded_chat_appli.Server.{snprintf}

abbrev pub buffer_size : ℕ
buffer_size = 1024

-- A packet to the server, the end of the program (behind a packet or not), an error on the
-- screen, or nothing.
pub data Action : Type 0 where
  send send_exit complain : Text → Action
  exit_program ignore : Action

-- `input[strcspn(input, "\n")] = 0`
unfoldable pub before_newline : Text → Text
before_newline [] = []
before_newline (c ∷ input) = let rest = before_newline input in if c == 10 then [] else c ∷ rest

-- What `strncmp(input, "conn$ ", 6) == 0` tests.
unfoldable pub asks_connection : Text → Bool
asks_connection input = same (take 6 input) (text "conn$ ")

unfoldable pub send_connect_request : Text → Action
send_connect_request username = send (snprintf buffer_size (text "conn$ " ++ username))

-- A line that is read before the connection; `now_connected` is the state after the read.
unfoldable pub user_input_pre_connection : Bool → Text → Action
user_input_pre_connection now_connected typed =
    let input = before_newline typed in
    let username = drop 6 input in
    if same input (text ":q")
    then exit_program
    else if now_connected
    then (if ltb 0 (length input) then send input else ignore)
    else if asks_connection input
    then (if ltb 0 (length username)
        then send_connect_request username
        else complain (text "Error: Username cannot be empty."))
    else if ltb 0 (length input)
    then complain (text "Error: Not connected.")
    else ignore

-- A line that is read while connected.
unfoldable pub user_input : Text → Action
user_input typed =
    let input = before_newline typed in
    if same input (text ":q")
    then send_exit (text "disconn$")
    else if same input (text "disconn$")
    then send input
    else if ltb 0 (length input)
    then send input
    else ignore
