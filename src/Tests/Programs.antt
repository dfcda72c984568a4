-- ===== src/Tests/Programs.antt =====
-- Tests of the client as a whole, and of the network: a user who types a name, and then a line.
use multithreaded_chat_appli.Base.{
  List, Text, [], ap, arith, false, length, refl, same, suc, text, true, ℕ, ◌++◌, ◌+◌, ◌∷◌, ◌≡◌,
}
use multithreaded_chat_appli.Sockets.{
  Os, SockaddrIn, init_client_socket, udp_socket_open, udp_socket_write, set_socket_addr, pos, ℤ,
}
use multithreaded_chat_appli.CString.{cstring}
use multithreaded_chat_appli.Client.Input.{
  before_newline, user_input_pre_connection, asks_connection, send_connect_request,
}
use multithreaded_chat_appli.Server.{snprintf}
use multithreaded_chat_appli.Client.Program.{
  Program, tests, holds, asleep, Datagram, turn, pre_step, post_step, act_pre, fgets, is_zero,
  get_line, boot, init_socket, reopen, write, sends_from, types_pre, types_post, Runs, stay, go,
}
use multithreaded_chat_appli.Client.Program.Waits.{IsWaiting, reached-IsWaiting}
use multithreaded_chat_appli.Client.Program.Opened.{SocketLaws, HasSocket, reached-HasSocket}
use multithreaded_chat_appli.Client.Program.Talks.{IsHeard, turn-IsHeard}
use multithreaded_chat_appli.Tests.Openings.{small_os, small_descriptors}
use multithreaded_chat_appli.Tests.Data.{unread}

abbrev pub os : Os (List ℤ)
os = small_os true

abbrev pub nowhere : SockaddrIn
nowhere = record { sin_family = 0; sin_port = 0; s_addr = 0 }

abbrev pub typed : Text
typed = text "conn$ bob" ++ (10 ∷ (text "hi" ++ (10 ∷ [])))

-- The start, and the first thread with the first line in hand while the second one waits.
abbrev pub started : Program (List ℤ)
started = boot os unread (text "") nowhere typed []

abbrev pub at_line : Program (List ℤ)
at_line = record started {
  pre = holds (text "conn$ bob" ++ (10 ∷ []));
  post = asleep;
  stdin = text "hi" ++ (10 ∷ []);
}

first_line : Runs os started at_line
unfolding turn pre_step post_step boot init_socket fgets get_line cstring
first_line =
    go {sent = []}
      (go {sent = []} (go {sent = []} (go {sent = []} stay types_post refl) types_pre refl)
        types_pre refl)
      types_pre refl

above : (n : ℕ) → is_zero (pos (n + 3)) ≡ false
above n = let e : n + 3 ≡ suc (n + 2) = omega arith in ap (λ m. is_zero (pos m)) e

small_laws : SocketLaws os (small_descriptors true)
small_laws = record { not_stdin = λ w. above (length w); sendto_keeps = λ w sd m addr. refl }

reached-IsWaiting_example : IsWaiting at_line
reached-IsWaiting_example = reached-IsWaiting os unread (text "") nowhere typed [] first_line

reached-HasSocket_example : HasSocket os (small_descriptors true) small_laws [] at_line
reached-HasSocket_example =
    reached-HasSocket os (small_descriptors true) small_laws [] unread (text "") nowhere typed
      first_line

-- The request, and the client behind it.
abbrev pub request : Datagram
request = record { to = at_line.server_addr; bytes = text "conn$ bob" ++ (0 ∷ []) }

turn-IsHeard_example : IsHeard (record at_line { pre = tests }) (text "old") (request ∷ [])
unfolding turn pre_step act_pre reopen init_socket boot write sends_from udp_socket_write
    user_input_pre_connection same before_newline asks_connection send_connect_request
    init_client_socket udp_socket_open set_socket_addr snprintf
turn-IsHeard_example =
    turn-IsHeard os unread (text "") nowhere typed [] first_line types_pre
      {q = record at_line { pre = tests }} (text "old") refl
