-- ===== src/Client/Node/Safe.antt =====
-- What a client's node keeps from round to round.
use multithreaded_chat_appli.Base.{
  All, All-append, All-pick, Bool-cases, List, Option-cases, Picked, Text, [], arith, inl, inr,
  length, ltb, none, pick, some, sym, take, ℕ, ℕ_discrete, ◌++◌, ◌-◌, ◌<◌, ◌∙◌, ◌∷◌, ◌≡◌,
}
use mathlib.Core.Path.{subst}
use multithreaded_chat_appli.CString.Words.{words}
use multithreaded_chat_appli.Queue.{Addr, queue_max, max_command_len, q_append, q_pop}
use multithreaded_chat_appli.Queue.Tokenise.{drop_dollar}
use multithreaded_chat_appli.Queue.Inv.{Entry, contents}
use multithreaded_chat_appli.Queue.Inv.{IsValid as IsQueue}
use multithreaded_chat_appli.Queue.Refine.{
  put_entry, get_entry, received, q_append_refines, q_pop_refines, q_append-IsValid, q_pop-IsValid,
}
use multithreaded_chat_appli.Cmd.{Command}
use multithreaded_chat_appli.Server.{max_msgs}
use multithreaded_chat_appli.Client.Valid.{IsSound}
use multithreaded_chat_appli.Delivery.Survive.{
  IsMildText, AreMild, tokens_mild, tokens_survived, stored,
}
use multithreaded_chat_appli.Service.{client_request}
use multithreaded_chat_appli.Client.Node.{
  ClientNode, Turn, blocked, crashed, done, cli_listener, cli_queue_manager, run_thread, Event,
  listens, manages, runs, turn,
}

-- The queue is valid and holds only texts that a client survives, so do the threads, and the
-- client is within its bounds.
pub record IsSafe (n : ClientNode) : Type 0 where
  pub queue : IsQueue n.task_queue
  pub waiting : All (λ e. IsMildText e.0) (contents n.task_queue)
  pub threads : All AreMild n.threads
  pub client : IsSound n.client

-- A datagram brings such a text, and a thread runs while a line of chat has a slot.
abbrev pub IsTame : ClientNode → Event → Type 0
IsTame n (listens datagram stack) = IsMildText (stored (client_request datagram stack))
IsTame n manages = Unit
IsTame n (runs i cmd) = length n.client.messages < max_msgs

-- The turn does not crash, and what it leaves is safe.
abbrev pub StaysSafe : Turn → Type 0
StaysSafe blocked = Unit
StaysSafe crashed = ⊥
StaysSafe (done n) = IsSafe n

-- What `put_entry` and `get_entry` keep.
put_mild :
    (es es' : List Entry) (msg : List ℕ)
    → All (λ e. IsMildText e.0) es
    → IsMildText (stored msg)
    → put_entry es msg none ≡ some es'
    → All (λ e. IsMildText e.0) es'
unfolding put_entry
put_mild es es' msg h m e = elim (ℕ_discrete (length es) (queue_max - 1)) [
  | yes full ↦ absurd (ground arith)
  | no room ↦
      let entry : Entry = (stored msg, none) in
      let grown : es ++ (entry ∷ []) ≡ es' = ground arith in
      subst (All (λ e. IsMildText e.0)) grown
        (All-append (λ e. IsMildText e.0) es (entry ∷ []) h (m, tt))
]

get_mild :
    (es es' : List Entry) (tokens : List Text) (addr : Addr)
    → All (λ e. IsMildText e.0) es
    → get_entry es ≡ some (tokens, addr, es')
    → AreMild tokens × All (λ e. IsMildText e.0) es'
unfolding get_entry
get_mild [] es' tokens addr h e = absurd cc
get_mild ((t, a) ∷ es) es' tokens addr h e =
    let same_tokens : take (max_command_len - 1) (words (drop_dollar t)) ≡ tokens = cc in
    let same_rest : es ≡ es' = cc in
    (subst AreMild same_tokens (tokens_mild t h.0), subst (All (λ e. IsMildText e.0)) same_rest h.1)

module _ (n : ClientNode) (s : IsSafe n) where
  pub listens_safe :
      (datagram stack : List ℕ)
      → IsMildText (stored (client_request datagram stack))
      → StaysSafe (cli_listener n datagram stack)
  unfolding cli_listener
  listens_safe datagram stack tame = elim (Bool-cases (ltb 0 (length datagram))) [
    | inr e ↦ rw e s
    | inl e ↦ elim (Option-cases (q_append n.task_queue (client_request datagram stack) none)) [
      | inl full ↦ rw e (rw full tt)
      | inr (q, room) ↦ rw e (
          rw room (record {
            queue = q_append-IsValid n.task_queue (client_request datagram stack) none s.queue room;
            waiting =
                put_mild (contents n.task_queue) (contents q) (client_request datagram stack)
                  s.waiting tame
                  (sym (q_append_refines n.task_queue (client_request datagram stack) none s.queue)
                    ∙ rw room);
            threads = s.threads;
            client = s.client;
          }))
    ]
  ]

  pub manages_safe : StaysSafe (cli_queue_manager n)
  unfolding cli_queue_manager
  manages_safe = elim (Option-cases (q_pop n.task_queue)) [
    | inl e ↦ rw (e, cli_queue_manager) tt
    | inr (p, e) ↦
        let popped : get_entry (contents n.task_queue) ≡ some (received p) =
          sym (q_pop_refines n.task_queue s.queue) ∙ rw e in
        let (mild, others) =
          get_mild (contents n.task_queue) (contents p.queue) (received p).0 p.sender s.waiting
            popped in
        rw (e, cli_queue_manager)
          (record {
            queue = q_pop-IsValid n.task_queue s.queue e;
            waiting = others;
            threads = All-append AreMild n.threads ((received p).0 ∷ []) s.threads (mild, tt);
            client = s.client;
          })
  ]

  runs_safe :
      (i : ℕ) (cmd : Command) → length n.client.messages < max_msgs → StaysSafe (run_thread n i cmd)
  unfolding run_thread
  runs_safe i cmd room = elim (Option-cases (pick i n.threads)) [
    | inl e ↦ rw (e, run_thread) tt
    | inr ((tokens, others), e) ↦
        let (mild, rest) = subst (Picked AreMild) e (All-pick AreMild i n.threads s.threads) in
        let (client, ran, sound) = tokens_survived n.client cmd tokens s.client room mild in
        rw (e, run_thread)
          (rw ran (record { queue = s.queue; waiting = s.waiting; threads = rest; client = sound }))
  ]

  -- No round of a safe client's listener, queue manager or command threads crashes it, and each
  -- leaves it safe, where a datagram brings a keyword and words with room in the client's join,
  -- and a thread runs while a slot for a line of chat is free.
  pub turn-IsSafe : (e : Event) → IsTame n e → StaysSafe (turn n e)
  unfolding turn
  turn-IsSafe (listens datagram stack) tame = listens_safe datagram stack tame
  turn-IsSafe manages tame = manages_safe
  turn-IsSafe (runs i cmd) tame = runs_safe i cmd tame
