-- ===== src/Cmd.antt =====
-- cmd.h: the kinds of command and the parser from the words of a message.
pub mod Kinds
pub mod Args
use multithreaded_chat_appli.Base.{
  List, Text, [], if◌then◌else◌, same, suc, take, text, zero, ℕ, ◌+◌, ◌-◌, ◌∷◌,
}

abbrev pub name_size : ℕ
name_size = 20

abbrev pub max_cmd_size : ℕ
max_cmd_size = 50

abbrev pub max_message : ℕ
max_message = 256

abbrev pub response_buffer_size : ℕ
response_buffer_size = max_message + 256

-- `command_kind_t`
pub data Kind : Type 0 where
  conn conn_success conn_failed say sayto mute unmute rename disconn : Kind
  disconn_response kick ping retping error unknown : Kind

-- `command_t`: `args` has `max_cmd_size` slots, each given as the string that it holds.
pub record Command : Type 0 where
  pub kind : Kind
  pub args : List Text

-- The chain of `strcmp` on the first word.
unfoldable pub kind_of : Text → Kind
kind_of word =
    if same word (text "conn")
    then conn
    else if same word (text "connsuccess")
    then conn_success
    else if same word (text "connfailed")
    then conn_failed
    else if same word (text "say")
    then say
    else if same word (text "sayto")
    then sayto
    else if same word (text "mute")
    then mute
    else if same word (text "unmute")
    then unmute
    else if same word (text "rename")
    then rename
    else if same word (text "disconn")
    then disconn
    else if same word (text "disconnresponse")
    then disconn_response
    else if same word (text "kick")
    then kick
    else if same word (text "ping")
    then ping
    else if same word (text "retping")
    then retping
    else if same word (text "error")
    then error
    else unknown

-- The two loops over the slots: a copy of each word by `strncpy`, cut to what a slot can hold,
-- then empty strings.
unfoldable pub fill_args : ℕ → List Text → List Text
fill_args zero words = []
fill_args (suc room) [] = [] ∷ fill_args room []
fill_args (suc room) (word ∷ words) = take (name_size - 1) word ∷ fill_args room words

-- With no first word `command` is left as it was found.
unfoldable pub command_handler : Command → List Text → Command
unfolding fill_args
command_handler command [] = command
command_handler command (word ∷ words) = record {
  kind = kind_of word;
  args = fill_args max_cmd_size words;
}
