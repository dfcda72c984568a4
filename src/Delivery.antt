-- ===== src/Delivery.antt =====
-- From the bytes of a packet to the command that is executed: `q_append`'s copy, the cut into
-- tokens by `q_pop`, `command_handler`, and `execute_server_command` at the client.
pub mod Chat
pub mod Survive
use multithreaded_chat_appli.Base.{
  ==_iff, All, All-append, All-replicate, List, Option, Text, [], ap, ap₂, arith, drop, length, map,
  refl, replicate, same, some, suc, take, take_self, text, ℕ, ◌++◌, ◌-◌, ◌<◌, ◌∙◌, ◌∷◌, ◌≡◌, ◌≢◌,
}
use multithreaded_chat_appli.CString.{cstring, space}
use multithreaded_chat_appli.CString.Words.{words, words-more, plain-nonzero}
use multithreaded_chat_appli.Queue.{get_and_tokenise, max_command_len}
use multithreaded_chat_appli.Queue.Tokenise.{drop_dollar, get_and_tokenise-words}
use multithreaded_chat_appli.Cmd.{
  Command, say, kind_of, name_size, max_cmd_size, fill_args, command_handler,
}
use multithreaded_chat_appli.Cmd.Args.{clip, fill_args-eq}
use multithreaded_chat_appli.Join.{join_size}
use multithreaded_chat_appli.Join.Unwords.{unwords, glue, IsWord, words-unwords, filled-append_nil}
use multithreaded_chat_appli.Join.Laws.{HasEmpty}
use multithreaded_chat_appli.Server.{max_msgs}
use multithreaded_chat_appli.Client.{handle_cli_side_cmd, ChatClient, execute_server_command}
use multithreaded_chat_appli.Client.Valid.{IsSound, Fits, say_exec_survives}

-- The tokens of a message, read through the pointers that `q_pop` hands out.
abbrev pub tokens_of : List ℕ → List Text
tokens_of mem = let out = get_and_tokenise mem in map (λ p. cstring (drop p out.1)) out.0

-- A keyword: a word without `$`.
abbrev pub IsKeyword : Text → Type 0
IsKeyword kw = IsWord kw × All (λ c. c ≢ b'$') kw

-- The words of a request that come through whole: each fits a slot, and there is a token and a
-- slot for each.
pub record Suits (ws : List Text) : Type 0 where
  pub are_words : All IsWord ws
  pub fit : All (λ w. length w < name_size) ws
  pub few : length ws < max_command_len - 1

nonzero-append : (s t : Text) → All (λ c. c ≢ 0) s → All (λ c. c ≢ 0) t → All (λ c. c ≢ 0) (s ++ t)
nonzero-append s t = All-append (λ c. c ≢ 0) s t

IsWord-nonzero : (w : Text) → IsWord w → All (λ c. c ≢ 0) w
IsWord-nonzero [] h = tt
IsWord-nonzero (c ∷ w) h = plain-nonzero (c ∷ w) h

glue-nonzero : (ws : List Text) → All IsWord ws → All (λ c. c ≢ 0) (glue ws)
unfolding glue
glue-nonzero [] h = tt
glue-nonzero (w ∷ ws) h =
    (omega arith, nonzero-append w (glue ws) (IsWord-nonzero w h.0) (glue-nonzero ws h.1))

unwords-nonzero : (ws : List Text) → All IsWord ws → All (λ c. c ≢ 0) (unwords ws)
unfolding unwords
unwords-nonzero [] h = tt
unwords-nonzero (w ∷ ws) h = nonzero-append w (glue ws) (IsWord-nonzero w h.0) (glue-nonzero ws h.1)

drop_dollar-append :
    (kw t : Text) → All (λ c. c ≢ b'$') kw → drop_dollar (kw ++ (b'$' ∷ t)) ≡ kw ++ t
unfolding drop_dollar
drop_dollar-append [] t h = refl
drop_dollar-append (c ∷ kw) t h = ground (arith, drop_dollar-append kw t h.1, ==_iff c b'$')

words-keyword :
    (kw : Text) (ws : List Text)
    → IsWord kw
    → All IsWord ws
    → words (kw ++ (space ∷ unwords ws)) ≡ kw ∷ ws
words-keyword [] ws h hs = absurd h
words-keyword (c ∷ kw) ws h hs =
    words-more c kw (unwords ws) h ∙ ap (λ r. (c ∷ kw) ∷ r) (words-unwords ws hs)

-- A request of a keyword, `$`, and words by single spaces is cut into just these.
pub tokens_of-request :
    (kw : Text) (ws : List Text) (rest : List ℕ)
    → IsKeyword kw
    → Suits ws
    → tokens_of ((kw ++ (text "$ " ++ unwords ws)) ++ (0 ∷ rest)) ≡ kw ∷ ws
tokens_of-request kw ws rest h s =
    get_and_tokenise-words (kw ++ (text "$ " ++ unwords ws)) rest (
      nonzero-append kw _ (IsWord-nonzero kw h.0)
        (omega arith, (omega arith, unwords-nonzero ws s.are_words)))
    ∙ ap (λ t. take (max_command_len - 1) (words t))
        (drop_dollar-append kw (space ∷ unwords ws) h.1)
    ∙ ap (take (max_command_len - 1)) (words-keyword kw ws h.0 s.are_words)
    ∙ take_self (max_command_len - 1) (kw ∷ ws) (omega (arith, s.few))

map-clip : (ws : List Text) → All (λ w. length w < name_size) ws → map clip ws ≡ ws
map-clip [] h = refl
map-clip (w ∷ ws) h =
    ap₂ (λ a b. a ∷ b) (take_self (name_size - 1) w (omega arith)) (map-clip ws h.1)

-- The slots of such a request: its words, then empty strings.
fill_args-request :
    (ws : List Text)
    → Suits ws
    → fill_args max_cmd_size ws ≡ ws ++ ([] ∷ replicate (max_cmd_size - 1 - length ws) [])
fill_args-request ws s =
    let room : max_cmd_size - length ws ≡ suc (max_cmd_size - 1 - length ws) =
      omega (arith, s.few) in
    fill_args-eq max_cmd_size ws
    ∙ ap₂ (λ a k. map clip a ++ replicate k []) (take_self max_cmd_size ws (omega (arith, s.few)))
        room
    ∙ ap (λ a. a ++ ([] ∷ replicate (max_cmd_size - 1 - length ws) [])) (map-clip ws s.fit)

pub HasEmpty-append : (ws rest : List Text) → HasEmpty (ws ++ ([] ∷ rest))
HasEmpty-append [] rest = tt
HasEmpty-append ([] ∷ ws) rest = tt
HasEmpty-append ((c ∷ w) ∷ ws) rest = HasEmpty-append ws rest

-- A request of a keyword, `$`, and at most forty-eight words of less than twenty bytes by single
-- spaces is parsed as the kind of the keyword, with these words in the slots and empty strings
-- behind them.
pub command_handler-request :
    (uninitialised : Command) (kw : Text) (ws : List Text) (rest : List ℕ)
    → IsKeyword kw
    → Suits ws
    → command_handler uninitialised (tokens_of ((kw ++ (text "$ " ++ unwords ws)) ++ (0 ∷ rest)))
      ≡ record {
        kind = kind_of kw;
        args = ws ++ ([] ∷ replicate (max_cmd_size - 1 - length ws) []);
      }
unfolding command_handler
command_handler-request uninitialised kw ws rest h s =
    rw (tokens_of-request kw ws rest h s)
      (ap (λ a. record { kind = kind_of kw; args = a }) (fill_args-request ws s))

-- The words of such a command fit the client.
Fits-request :
    (ws : List Text)
    → Suits ws
    → length (unwords ws) < join_size
    → Fits (ws ++ ([] ∷ replicate (max_cmd_size - 1 - length ws) []))
Fits-request ws s h = record {
  words =
      All-append (λ w. length w < name_size) ws _ s.fit
        (omega arith, All-replicate (λ w. length w < name_size) _ [] (omega arith));
  empty = HasEmpty-append ws _;
  short = rw (filled-append_nil ws (replicate (max_cmd_size - 1 - length ws) []) s.are_words) h;
}

pub say-IsKeyword : IsKeyword (text "say")
say-IsKeyword = (
  ((omega arith, omega arith), ((omega arith, omega arith), ((omega arith, omega arith), tt))),
  (omega arith, (omega arith, (omega arith, tt))),
)

kind_of-say : kind_of (text "say") ≡ say
unfolding kind_of same
kind_of-say = refl

-- A `say$` packet of words as in a request, with less than 300 bytes of text, is stored by a
-- client that is within its bounds and has a free slot as it was sent, behind the other messages;
-- nothing else changes.
pub handle_cli_side_cmd-line :
    (client : ChatClient) (uninitialised : Command) (ws : List Text) (rest : List ℕ)
    → IsSound client
    → length client.messages < max_msgs
    → Suits ws
    → length (unwords ws) < join_size
    → handle_cli_side_cmd client uninitialised
        (tokens_of ((text "say$ " ++ unwords ws) ++ (0 ∷ rest)))
      ≡ some (record client { messages = client.messages ++ (unwords ws ∷ []) })
unfolding handle_cli_side_cmd execute_server_command
handle_cli_side_cmd-line client uninitialised ws rest sound room s h =
    rw (command_handler-request uninitialised (text "say") ws rest say-IsKeyword s) (
      rw kind_of-say (
        say_exec_survives client (record { kind = say; args = slots }) sound (Fits-request ws s h)
          room
        ∙ ap (λ (m : Text). stored m)
            (ap unwords
              (filled-append_nil ws (replicate (max_cmd_size - 1 - length ws) []) s.are_words))))
  where
    slots : List Text
    slots = ws ++ ([] ∷ replicate (max_cmd_size - 1 - length ws) [])

    stored : Text → Option ChatClient
    stored m = some (record client { messages = client.messages ++ (m ∷ []) })
