-- ===== src/Delivery/Survive.antt =====
-- What a client does with a packet: the words that it reads, and that it survives them.
use multithreaded_chat_appli.Base.{
  List, Text, [], ap, arith, length, length-take, map, refl, replicate, some, suc, sym, take,
  take_self, text, ℕ, ◌++◌, ◌-◌, ◌<◌, ◌∙◌, ◌∷◌, ◌≡◌, ◌≤◌,
}
use mathlib.Core.Path.{subst}
use multithreaded_chat_appli.CString.{cstring}
use multithreaded_chat_appli.CString.Words.{words, split, push}
use multithreaded_chat_appli.Queue.{max_command_len, queue_msg_size}
use multithreaded_chat_appli.Queue.Tokenise.{drop_dollar}
use multithreaded_chat_appli.Cmd.{Command, kind_of, max_cmd_size, fill_args, command_handler}
use multithreaded_chat_appli.Cmd.Args.{clip, fill_args-eq, fill_args-fits}
use multithreaded_chat_appli.Join.{join_size}
use multithreaded_chat_appli.Join.Unwords.{unwords}
use multithreaded_chat_appli.Join.Laws.{HasEmpty}
use multithreaded_chat_appli.Join.Spans.{length-cstring, rejoined, unwords-slots, unwords-take}
use multithreaded_chat_appli.Server.{max_msgs}
use multithreaded_chat_appli.Client.{handle_cli_side_cmd, ChatClient}
use multithreaded_chat_appli.Client.Valid.{IsSound, Fits, execute_server_command_survives}
use multithreaded_chat_appli.Delivery.{HasEmpty-append}

-- The text of a body in the client's queue: `q_append` copies the string and cuts it.
abbrev pub stored : Text → Text
stored body = take (queue_msg_size - 1) (cstring body)

-- A text of a keyword and words that are not too long to be joined again.
abbrev pub IsMildText : Text → Type 0
IsMildText t =
    (kw : Text) × (ws : List Text) × (words (drop_dollar t) ≡ kw ∷ ws)
    × (length (unwords ws) < join_size)

abbrev pub IsMild : Text → Type 0
IsMild body = IsMildText (stored body)

-- Tokens of that kind, with a slot to spare.
abbrev pub AreMild : List Text → Type 0
AreMild tokens =
    (kw : Text) × (ws : List Text) × (tokens ≡ kw ∷ ws)
    × (length ws < max_cmd_size)
    × (length (unwords ws) < join_size)

pub tokens_mild :
    (t : Text) → IsMildText t → AreMild (take (max_command_len - 1) (words (drop_dollar t)))
tokens_mild t (kw, ws, e, short) = (
  kw,
  take (max_command_len - 2) ws,
  ap (take (max_command_len - 1)) e,
  omega (arith, length-take 48 ws),
  omega (arith, unwords-take 48 ws, short),
)

HasEmpty-slots : (ws : List Text) → length ws < max_cmd_size → HasEmpty (fill_args max_cmd_size ws)
HasEmpty-slots ws h =
    let spare : max_cmd_size - length ws ≡ suc (max_cmd_size - 1 - length ws) = omega arith in
    subst HasEmpty
      (sym (
        fill_args-eq max_cmd_size ws
        ∙ ap (λ k. map clip (take max_cmd_size ws) ++ replicate k []) spare))
      (HasEmpty-append (map clip (take max_cmd_size ws))
        (replicate (max_cmd_size - 1 - length ws) []))

pub Fits-slots :
    (ws : List Text)
    → length ws < max_cmd_size
    → length (unwords ws) < join_size
    → Fits (fill_args max_cmd_size ws)
Fits-slots ws few short = record {
  words = fill_args-fits max_cmd_size ws;
  empty = HasEmpty-slots ws few;
  short = omega (arith, unwords-slots max_cmd_size ws, short);
}

-- A client within its bounds and with a free slot survives mild tokens, and stays within them.
pub tokens_survived :
    (client : ChatClient) (uninitialised : Command) (tokens : List Text)
    → IsSound client
    → length client.messages < max_msgs
    → AreMild tokens
    → (client' : ChatClient) × (handle_cli_side_cmd client uninitialised tokens ≡ some client')
      × IsSound client'
unfolding handle_cli_side_cmd command_handler
tokens_survived client uninitialised tokens sound room (kw, ws, e, few, short) =
    let command : Command = record { kind = kind_of kw; args = fill_args max_cmd_size ws } in
    let (client', ran, sound') =
      execute_server_command_survives client command sound (Fits-slots ws few short) (kind_of kw)
        (λ _. room) in
    (client', rw e ran, sound')

-- A keyword and a text that is short enough.
module _ (body kw t : Text) (n : ℕ)
    (cut : words (drop_dollar (stored body)) ≡ kw ∷ words (take n (cstring t)))
    (whole : length t ≤ n) where
  words-IsMild : length (unwords (words (cstring t))) < join_size → IsMild body
  words-IsMild h = (
    kw,
    words (cstring t),
    cut ∙ ap (λ x. kw ∷ words x) (take_self n (cstring t) (omega (arith, length-cstring t))),
    h,
  )

  short-IsMild : length t < join_size → IsMild body
  short-IsMild h = words-IsMild (omega (arith, rejoined t))

-- A line of chat, its words rejoined.
pub line-IsMild :
    (t : Text)
    → length t ≤ 506
    → length (unwords (words (cstring t))) < join_size
    → IsMild (text "say$ " ++ t)
unfolding cstring drop_dollar words split push
line-IsMild t = words-IsMild (text "say$ " ++ t) (text "say") t 506 refl

pub say-IsMild : (t : Text) → length t < join_size → IsMild (text "say$ " ++ t)
say-IsMild t h = line-IsMild t (omega arith) (omega (arith, rejoined t))

pub error-IsMild : (t : Text) → length t < join_size → IsMild (text "error$ " ++ t)
unfolding cstring drop_dollar words split push
error-IsMild t h = short-IsMild (text "error$ " ++ t) (text "error") t 504 refl (omega arith) h

pub mute-IsMild : (t : Text) → length t < join_size → IsMild (text "mute$ " ++ t)
unfolding cstring drop_dollar words split push
mute-IsMild t h = short-IsMild (text "mute$ " ++ t) (text "mute") t 505 refl (omega arith) h

pub unmute-IsMild : (t : Text) → length t < join_size → IsMild (text "unmute$ " ++ t)
unfolding cstring drop_dollar words split push
unmute-IsMild t h = short-IsMild (text "unmute$ " ++ t) (text "unmute") t 503 refl (omega arith) h

pub rename-IsMild : (t : Text) → length t < join_size → IsMild (text "rename$ " ++ t)
unfolding cstring drop_dollar words split push
rename-IsMild t h = short-IsMild (text "rename$ " ++ t) (text "rename") t 503 refl (omega arith) h

pub connsuccess-IsMild : (t : Text) → length t < join_size → IsMild (text "connsuccess$ " ++ t)
unfolding cstring drop_dollar words split push
connsuccess-IsMild t h =
    short-IsMild (text "connsuccess$ " ++ t) (text "connsuccess") t 498 refl (omega arith) h

pub disconnresponse-IsMild : IsMild (text "disconnresponse$")
unfolding cstring drop_dollar words split push unwords
disconnresponse-IsMild = (text "disconnresponse", [], refl, omega arith)

pub ping-IsMild : IsMild (text "ping$")
unfolding cstring drop_dollar words split push unwords
ping-IsMild = (text "ping", [], refl, omega arith)
