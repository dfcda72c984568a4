-- ===== src/Client/Node/Full.antt =====
-- The rounds of a client's node, when its array of lines may be full.
use multithreaded_chat_appli.Base.{
  All-pick, List, Option-cases, Picked, Text, arith, dec_lt, eq_of_some, inl, inr, length, pick,
  refl, some, sym, ℕ, ◌<◌, ◌∙◌, ◌≡◌, ◌⊎◌,
}
use mathlib.Core.Path.{subst}
use multithreaded_chat_appli.Cmd.{
  Command, command_handler, kind_of, max_cmd_size, say, Kind, fill_args,
}
use multithreaded_chat_appli.Server.{max_msgs}
use multithreaded_chat_appli.Client.{ChatClient, handle_cli_side_cmd, execute_server_command}
use multithreaded_chat_appli.Client.Valid.{IsSound, say_exec_full, execute_server_command_survives}
use multithreaded_chat_appli.Delivery.Survive.{
  IsMildText, AreMild, tokens_survived, stored, Fits-slots,
}
use multithreaded_chat_appli.Service.{client_request}
use multithreaded_chat_appli.Client.Node.{
  ClientNode, Turn, blocked, crashed, done, cli_listener, cli_queue_manager, run_thread, Event,
  listens, manages, runs, turn,
}
use multithreaded_chat_appli.Client.Node.Safe.{IsSafe, StaysSafe, listens_safe, manages_safe}

full_or_room :
    (client : ChatClient)
    → IsSound client
    → (length client.messages < max_msgs) ⊎ (length client.messages ≡ max_msgs)
full_or_room client s = elim (dec_lt (length client.messages) max_msgs) [
  | yes h ↦ inl h
  | no h ↦ inr (omega (arith, s.count))
]

not_full :
    (client client' : ChatClient) (command : Command) (kind : Kind)
    → IsSound client
    → execute_server_command client command kind ≡ some client'
    → kind ≡ say
    → length client.messages < max_msgs
unfolding execute_server_command
not_full client client' command kind s e is_say = elim (full_or_room client s) [
  | inl room ↦ room
  | inr full ↦
      let ran : execute_server_command client command say ≡ some client' =
        subst (λ k. execute_server_command client command k ≡ some client') is_say e in
      let stuck = say_exec_full client command full in absurd cc
]

-- A thread that a sound client survives leaves it sound.
tokens-IsSound :
    (client client' : ChatClient) (uninitialised : Command) (tokens : List Text)
    → IsSound client
    → AreMild tokens
    → handle_cli_side_cmd client uninitialised tokens ≡ some client'
    → IsSound client'
unfolding handle_cli_side_cmd command_handler
tokens-IsSound client client' uninitialised tokens s (kw, ws, e, few, short) ran =
    let command : Command = record { kind = kind_of kw; args = fill_args max_cmd_size ws } in
    let ran' : execute_server_command client command (kind_of kw) ≡ some client' =
      sym (rw e refl) ∙ ran in
    let (client'', ran'', sound) =
      execute_server_command_survives client command s (Fits-slots ws few short) (kind_of kw)
        (not_full client client' command (kind_of kw) s ran') in
    subst IsSound (eq_of_some client'' client' (sym ran'' ∙ ran')) sound

-- A round leaves the node safe, or crashes it with its lines full.
abbrev pub IsHarmless : ClientNode → Turn → Type 0
IsHarmless n blocked = Unit
IsHarmless n crashed = length n.client.messages ≡ max_msgs
IsHarmless n (done n') = IsSafe n'

-- A datagram brings a text that a client survives.
abbrev pub BringsMild : Event → Type 0
BringsMild (listens datagram stack) = IsMildText (stored (client_request datagram stack))
BringsMild _ = Unit

safe-IsHarmless : (n : ClientNode) (t : Turn) → StaysSafe t → IsHarmless n t
safe-IsHarmless n blocked s = tt
safe-IsHarmless n crashed s = absurd s
safe-IsHarmless n (done n') s = s

module _ (n : ClientNode) (s : IsSafe n) where
  runs-IsHarmless : (i : ℕ) (cmd : Command) → IsHarmless n (run_thread n i cmd)
  unfolding run_thread
  runs-IsHarmless i cmd = elim (Option-cases (pick i n.threads)) [
    | inl e ↦ rw (e, run_thread) tt
    | inr ((tokens, others), e) ↦
        let (mild, rest) = subst (Picked AreMild) e (All-pick AreMild i n.threads s.threads) in
        elim (Option-cases (handle_cli_side_cmd n.client cmd tokens)) [
          | inl q ↦ elim (full_or_room n.client s.client) [
            | inl room ↦
                let (client, ran, _) = tokens_survived n.client cmd tokens s.client room mild in
                absurd cc
            | inr full ↦ rw (e, run_thread) (rw q full)
          ]
          | inr (client, q) ↦
              rw (e, run_thread)
                (rw q (record {
                  queue = s.queue;
                  waiting = s.waiting;
                  threads = rest;
                  client = tokens-IsSound n.client client cmd tokens s.client mild q;
                }))
        ]
  ]

  pub turn-IsHarmless : (e : Event) → BringsMild e → IsHarmless n (turn n e)
  unfolding turn
  turn-IsHarmless (listens datagram stack) mild =
      safe-IsHarmless n (cli_listener n datagram stack) (listens_safe n s datagram stack mild)
  turn-IsHarmless manages mild = safe-IsHarmless n (cli_queue_manager n) (manages_safe n s)
  turn-IsHarmless (runs i cmd) mild = runs-IsHarmless i cmd
