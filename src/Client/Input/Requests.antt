-- ===== src/Client/Input/Requests.antt =====
-- What a client sends before it is connected.
use multithreaded_chat_appli.Base.{
  ==_iff, All, Bool, Bool-cases, List, Text, [], ap, append-nil, arith, drop, false, if◌then◌else◌,
  inl, inr, length, ltb, refl, replicate, same, same_iff, suc, sym, take, take_self, text, true,
  zero, ℕ, ◌++◌, ◌-◌, ◌<◌, ◌==◌, ◌∙◌, ◌∷◌, ◌≡◌, ◌≢◌, ◌≤◌,
}
use multithreaded_chat_appli.Cmd.{Command, conn, name_size, max_cmd_size, kind_of, command_handler}
use multithreaded_chat_appli.Join.Unwords.{IsWord, unwords, glue}
use multithreaded_chat_appli.Server.{snprintf}
use multithreaded_chat_appli.Delivery.{tokens_of, IsKeyword, command_handler-request}
use multithreaded_chat_appli.Client.Input.{
  exit_program, complain, ignore, Action, send, buffer_size, before_newline, asks_connection,
  send_connect_request, user_input_pre_connection,
}

before_newline-append :
    (line rest : Text) → All (λ c. c ≢ 10) line → before_newline (line ++ (10 ∷ rest)) ≡ line
unfolding before_newline
before_newline-append [] rest h = refl
before_newline-append (c ∷ line) rest h =
    ground (arith, before_newline-append line rest h.1, ==_iff c 10)

-- The request that a typed name makes.
request_sent :
    (c : ℕ) (name : Text)
    → All (λ d. d ≢ 10) (c ∷ name)
    → length (c ∷ name) < name_size
    → user_input_pre_connection false ((text "conn$ " ++ (c ∷ name)) ++ (10 ∷ []))
      ≡ send (text "conn$ " ++ (c ∷ name))
unfolding user_input_pre_connection asks_connection send_connect_request snprintf same
request_sent c name h fits =
    rw
      (before_newline-append (text "conn$ " ++ (c ∷ name)) []
        (omega arith, (omega arith, (omega arith, (omega arith, (omega arith, (omega arith, h)))))))
      (rw positive (ap send uncut))
  where
    positive : ltb 0 (suc (length name)) ≡ true
    positive = ground arith

    uncut : take (buffer_size - 1) (text "conn$ " ++ (c ∷ name)) ≡ text "conn$ " ++ (c ∷ name)
    uncut = take_self (buffer_size - 1) (text "conn$ " ++ (c ∷ name)) (omega (arith, fits))

conn-IsKeyword : IsKeyword (text "conn")
conn-IsKeyword = (
  (
    (omega arith, omega arith),
    ((omega arith, omega arith), ((omega arith, omega arith), ((omega arith, omega arith), tt))),
  ),
  (omega arith, (omega arith, (omega arith, (omega arith, tt)))),
)

kind_of-conn : kind_of (text "conn") ≡ conn
unfolding kind_of same
kind_of-conn = refl

-- A typed line `conn$ ` and a name, not empty, of less than twenty bytes and without spaces and
-- line breaks, is sent as it is before the connection, and the server parses it as a `conn` of
-- that name, every other slot empty.
pub connection_requested :
    (c : ℕ) (name : Text) (uninitialised : Command) (rest : List ℕ)
    → IsWord (c ∷ name)
    → All (λ d. d ≢ 10) (c ∷ name)
    → length (c ∷ name) < name_size
    → (user_input_pre_connection false ((text "conn$ " ++ (c ∷ name)) ++ (10 ∷ []))
        ≡ send (text "conn$ " ++ (c ∷ name)))
      × (command_handler uninitialised (tokens_of ((text "conn$ " ++ (c ∷ name)) ++ (0 ∷ rest)))
          ≡ record { kind = conn; args = (c ∷ name) ∷ [] ∷ replicate (max_cmd_size - 2) [] })
unfolding unwords glue
connection_requested c name uninitialised rest w h fits = (
  request_sent c name h fits,
  ap (λ n. command_handler uninitialised (tokens_of ((text "conn$ " ++ (c ∷ n)) ++ (0 ∷ rest))))
        (sym (append-nil name))
      ∙ command_handler-request uninitialised (text "conn") ((c ∷ name) ∷ []) rest conn-IsKeyword
          (record { are_words = (w, tt); fit = (fits, tt); few = omega arith })
      ∙ ap (λ k. record { kind = k; args = (c ∷ name) ∷ [] ∷ replicate (max_cmd_size - 2) [] })
          kind_of-conn,
)

pub before_newline-length : (typed : Text) → length (before_newline typed) ≤ length typed
unfolding before_newline
before_newline-length [] = omega arith
before_newline-length (c ∷ typed) = ground (arith, before_newline-length typed)

pub before_newline-All :
    (P : ℕ → Type 0) (typed : Text) → All P typed → All P (before_newline typed)
unfolding before_newline
before_newline-All P [] h = tt
before_newline-All P (c ∷ typed) h = elim (Bool-cases (c == 10)) [
  | inl e ↦ rw e tt
  | inr e ↦ rw e (h.0, before_newline-All P typed h.1)
]

append-take : (n : ℕ) (xs : Text) → take n xs ++ drop n xs ≡ xs
append-take zero xs = refl
append-take (suc n) [] = refl
append-take (suc n) (x ∷ xs) = ap (λ r. x ∷ r) (append-take n xs)

asks_eq : (input : Text) → asks_connection input ≡ true → input ≡ text "conn$ " ++ drop 6 input
unfolding asks_connection
asks_eq input e = sym (append-take 6 input) ∙ ap (λ t. t ++ drop 6 input) ((same_iff _ _).0 e)

-- What an action sends without leaving.
sent : Action → Text
sent (send m) = m
sent _ = []

-- The tests of a line before the connection, that only one outcome of lets a packet out.
only_send :
    (quits asks named_one full : Bool) (a m e e' : Text)
    → (if quits
        then exit_program
        else if asks
        then (if named_one then send a else complain e)
        else if full
        then complain e'
        else ignore)
      ≡ send m
    → (asks ≡ true) × (named_one ≡ true) × (a ≡ m)
unfolding sent
only_send true asks named_one full a m e e' q = cc
only_send false true true full a m e e' q = (refl, refl, ap sent q)
only_send false true false full a m e e' q = cc
only_send false false named_one true a m e e' q = cc
only_send false false named_one false a m e e' q = cc

-- Before the connection, whatever line of less than 1024 bytes is typed, the only packet that a
-- client sends is the line itself up to its line break, and that is `conn$ ` and a name that is
-- not empty.
pub user_input_pre_connection-requests :
    (typed m : Text)
    → length typed < buffer_size
    → user_input_pre_connection false typed ≡ send m
    → (name : Text) × (m ≡ text "conn$ " ++ name) × (0 < length name) × (before_newline typed ≡ m)
unfolding user_input_pre_connection send_connect_request snprintf
user_input_pre_connection-requests typed m short e =
    let input = before_newline typed in
    let username = drop 6 input in
    let (asks, one, a) =
      only_send (same input (text ":q")) (asks_connection input) (ltb 0 (length username))
        (ltb 0 (length input)) (take (buffer_size - 1) (text "conn$ " ++ username)) m
        (text "Error: Username cannot be empty.") (text "Error: Not connected.") e in
    let whole : input ≡ text "conn$ " ++ username = asks_eq input asks in
    let fits : length (text "conn$ " ++ username) ≤ buffer_size - 1 =
      omega (arith, ap length whole, before_newline-length typed, short) in
    let uncut : m ≡ text "conn$ " ++ username = sym a ∙ take_self (buffer_size - 1) _ fits in
    (username, uncut, ground arith, whole ∙ sym uncut)
