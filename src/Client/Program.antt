-- ===== src/Client/Program.antt =====
-- client_interface.c, the client as a whole: its two input threads beside the listener, the queue
-- manager and the command threads of Client/Node. A step of an input thread is one critical
-- section, one read of a line, or what it does with the line; the steps come in any order.
-- `connection_cond` keeps no state of its own: a thread that waits on it stands at `asleep`.
mod Connected
pub mod Waits
pub mod Opened
pub mod Lines
pub mod Sends
pub mod Talks
pub mod Harmless
use multithreaded_chat_appli.Base.{
  Bool, List, Option, Text, [], false, if◌then◌else◌, length, none, not, pick, some, suc, true,
  zero, ℕ, ◌&&◌, ◌++◌, ◌-◌, ◌==◌, ◌||◌, ◌∷◌, ◌≡◌,
}
use multithreaded_chat_appli.CString.{cstring}
use multithreaded_chat_appli.Queue.{Queue}
use multithreaded_chat_appli.Cmd.{Kind, conn_success, disconn_response, command_handler}
use multithreaded_chat_appli.Client.Input.{
  Action, send, send_exit, complain, exit_program, ignore, user_input_pre_connection, user_input,
}
use multithreaded_chat_appli.Client.Node.{ClientNode}
use multithreaded_chat_appli.Client.Node as Node
use multithreaded_chat_appli.Sockets.{ℤ, pos, SockaddrIn, Os, init_client_socket, udp_socket_write}

abbrev pub max_len : ℕ
max_len = 1024

-- At most `n` bytes of a stream, up to its first line break, and what is left of it.
unfoldable pub get_line : ℕ → Text → Text × Text
get_line zero stream = ([], stream)
get_line (suc n) [] = ([], [])
get_line (suc n) (c ∷ stream) =
    let (line, rest) = get_line n stream in if c == 10 then (c ∷ [], stream) else (c ∷ line, rest)

-- `none` is the `NULL` at the end of the stream.
unfoldable pub fgets : ℕ → Text → Option (Text × Text)
fgets size [] = none
fgets size (c ∷ stream) = some (get_line (size - 1) (c ∷ stream))

-- Where an input thread stands: before the test of its waiting loop, in the wait, before its second
-- look at `connected`, before `fgets`, with a line that it read, or behind its last packet.
pub data Place : Type 0 where
  tests asleep looks reads leaving : Place
  holds : Text → Place

abbrev pub is_asleep : Place → Bool
is_asleep asleep = true
is_asleep _ = false

-- A waiting thread that is woken tests again.
abbrev pub woken : Place → Place
woken asleep = tests
woken p = p

-- `stdin` is what is still to be read of the input, to its end.
pub record Program (W : Type 0) : Type 0 where
  pub node : ClientNode
  pub sd : ℤ
  pub server_addr : SockaddrIn
  pub pre : Place
  pub post : Place
  pub stdin : Text
  pub world : W

-- The bytes that an input thread sends, and where.
pub record Datagram : Type 0 where
  pub to : SockaddrIn
  pub bytes : List ℕ

pub data Turn (W : Type 0) : Type 0 where
  blocked crashed exited : Turn W
  done : Program W → List Datagram → Turn W

-- `pthread_cond_signal` wakes one of the threads that wait, if there are any.
unfoldable pub signal : {W : Type 0} → Bool → Program W → Program W
signal first p =
    if (is_asleep p.pre && (first || not (is_asleep p.post)))
    then record p { pre = woken p.pre }
    else record p { post = woken p.post }

-- The commands whose handlers signal `connection_cond`.
abbrev pub wakes : Kind → Bool
wakes conn_success = true
wakes disconn_response = true
wakes _ = false

abbrev pub signals : ClientNode → Node.Event → Bool
signals n (Node.runs i cmd) = elim (pick i n.threads) [
  | none ↦ false
  | some (tokens, _) ↦ wakes (command_handler cmd tokens).kind
]
signals n _ = false

-- A round of the other threads; `first` says which thread a signal wakes when both wait.
unfoldable pub node_step : {W : Type 0} → Program W → Node.Event → Bool → Turn W
node_step p e first = elim (Node.turn p.node e) [
  | Node.blocked ↦ blocked
  | Node.crashed ↦ crashed
  | Node.done n ↦
      let p' = record p { node = n } in done (if signals p.node e then signal first p' else p') []
]

abbrev pub is_connected : {W : Type 0} → Program W → Bool
is_connected p = p.node.client.connected

abbrev pub is_zero : ℤ → Bool
is_zero (pos zero) = true
is_zero _ = false

-- A wait may also end by itself.
pub data Event : Type 0 where
  acts : Node.Event → Bool → Event
  types_pre types_post stirs_pre stirs_post : Event

module _ {W : Type 0} (os : Os W) where
  -- `udp_socket_write(client->sd, &client->server_addr, text, strlen(text) + 1)`
  unfoldable pub write : Program W → Text → Program W × List Datagram
  write p m =
      let bytes = m ++ (0 ∷ []) in
      (
        record p {
          world = (udp_socket_write os p.sd p.server_addr bytes (length bytes) p.world).1;
        },
        (record { to = p.server_addr; bytes = bytes } ∷ []),
      )

  unfoldable pub init_socket : Program W → Program W
  init_socket p =
      let (c, w) =
        init_client_socket os
          (record { client = p.node.client; sd = p.sd; server_addr = p.server_addr }) p.world in
      record p { sd = c.sd; server_addr = c.server_addr; world = w }

  -- Before a request, the socket is opened where there is none.
  unfoldable pub reopen : Program W → Program W
  reopen p = if is_zero p.sd then init_socket p else p

  unfoldable pub sends_from : Program W → Text → Turn W
  sends_from p m = let (p', sent) = write p m in done p' sent

  -- What the first thread does with a line, by the state behind the read; it begins again.
  unfoldable pub act_pre : Program W → Bool → Action → Turn W
  act_pre p now_connected (send m) = sends_from (if now_connected then p else reopen p) m
  act_pre p now_connected (send_exit m) = exited
  act_pre p now_connected exit_program = exited
  act_pre p now_connected (complain m) = done p []
  act_pre p now_connected ignore = done p []

  unfoldable pub pre_step : Program W → Place → Turn W
  pre_step p tests =
      done (if is_connected p then record p { pre = asleep } else record p { pre = looks }) []
  pre_step p asleep = blocked
  pre_step p looks =
      done (if is_connected p then record p { pre = tests } else record p { pre = reads }) []
  pre_step p reads = elim (fgets max_len p.stdin) [
    | none ↦ done (record p { pre = tests }) []
    | some (line, rest) ↦ done (record p { pre = holds (cstring line); stdin = rest }) []
  ]
  pre_step p (holds typed) =
      act_pre (record p { pre = tests }) (is_connected p)
        (user_input_pre_connection (is_connected p) typed)
  pre_step p leaving = blocked

  -- The second thread, which leaves behind a packet and a second of sleep.
  unfoldable pub act_post : Program W → Action → Turn W
  act_post p (send m) = sends_from p m
  act_post p (send_exit m) = sends_from (record p { post = leaving }) m
  act_post p exit_program = exited
  act_post p (complain m) = done p []
  act_post p ignore = done p []

  unfoldable pub post_step : Program W → Place → Turn W
  post_step p tests =
      done (if is_connected p then record p { post = looks } else record p { post = asleep }) []
  post_step p asleep = blocked
  post_step p looks =
      done (if is_connected p then record p { post = reads } else record p { post = tests }) []
  post_step p reads = elim (fgets max_len p.stdin) [
    | none ↦ done (record p { post = tests }) []
    | some (line, rest) ↦ done (record p { post = holds (cstring line); stdin = rest }) []
  ]
  post_step p (holds typed) = act_post (record p { post = tests }) (user_input typed)
  post_step p leaving = exited

  unfoldable pub turn : Program W → Event → Turn W
  turn p (acts e first) = node_step p e first
  turn p types_pre = pre_step p p.pre
  turn p types_post = post_step p p.post
  turn p stirs_pre = done (record p { pre = woken p.pre }) []
  turn p stirs_post = done (record p { post = woken p.post }) []

  -- `main`; `addr` is what the memory of the server's address holds.
  unfoldable pub boot : Queue → Text → SockaddrIn → Text → W → Program W
  boot memory name addr stdin w = init_socket (record {
    node = Node.boot memory name;
    sd = pos 0;
    server_addr = addr;
    pre = tests;
    post = tests;
    stdin = stdin;
    world = w;
  })

  -- The states that a schedule leads to.
  pub data Runs (p : Program W) : Program W → Type 0 where
    stay : Runs p p
    go :
        {q r : Program W} {sent : List Datagram}
        → Runs p q
        → (e : Event) → turn q e ≡ done r sent
        → Runs p r
