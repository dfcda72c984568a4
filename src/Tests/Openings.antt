-- ===== src/Tests/Openings.antt =====
-- Tests of the sockets' opening, over a system that counts its descriptors up.
use multithreaded_chat_appli.Base.{
  Bool, List, [], ap, drop, if◌then◌else◌, length, refl, ◌%◌, ◌*◌, ◌+◌, ◌/◌, ◌∷◌,
}
use multithreaded_chat_appli.Sockets.{ℤ, pos, negsuc, Os, SocketClient}
use multithreaded_chat_appli.Sockets.Laws.{Descriptors}
use multithreaded_chat_appli.Tests.Data.{viewer}

-- The state is the list of the open descriptors; binding fails or not.
abbrev pub small_os : Bool → Os (List ℤ)
small_os may_bind = record {
  htons = λ port. port / 256 + port % 256 * 256;
  inet_pton = λ dotted addr. (pos 1, 16777343);
  socket = λ w. (pos (length w + 3), pos (length w + 3) ∷ w);
  bind = λ w sd addr. (if may_bind then pos 0 else negsuc 0, w);
  close = λ w sd. drop 1 w;
  recvfrom = λ w sd n. ((pos 0, [], record { sin_family = 2; sin_port = 0; s_addr = 0 }), w);
  sendto = λ w sd bytes addr. (pos (length bytes), w);
}

abbrev pub small_descriptors : (may_bind : Bool) → Descriptors (small_os may_bind)
small_descriptors may_bind = record {
  opened = λ w. w;
  socket_fails = λ w e. absurd cc;
  socket_opens = λ w e. refl;
  bind_keeps = λ w sd addr. refl;
  close_closes = λ w sd rest e. ap (drop 1) e;
}

abbrev unopened : SocketClient
unopened = record {
  client = viewer;
  sd = pos 0;
  server_addr = record { sin_family = 0; sin_port = 0; s_addr = 0 };
}
