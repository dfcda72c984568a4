-- ===== src/Sockets.antt =====
-- udp.h, and the functions of the client and the server that open their socket. The operating
-- system's calls are a parameter: they act on a state `W` of the system, and a result is an `int`.
pub mod Laws
use multithreaded_chat_appli.Base.{
  Bool, List, Option, Text, false, if◌then◌else◌, none, some, suc, take, text, true, zero, ℕ,
}
use multithreaded_chat_appli.Client.{ChatClient, strcpy}
use multithreaded_chat_appli.Cmd.{name_size}

pub data ℤ : Type 0 where
  pos : ℕ → ℤ
  negsuc : ℕ → ℤ

abbrev pub is_negative : ℤ → Bool
is_negative (pos n) = false
is_negative (negsuc n) = true

abbrev pub is_positive : ℤ → Bool
is_positive (pos zero) = false
is_positive (pos (suc n)) = true
is_positive (negsuc n) = false

abbrev pub failure : ℤ
failure = negsuc 0

-- `struct sockaddr_in`; the rest of it is zero.
pub record SockaddrIn : Type 0 where
  pub sin_family : ℕ
  pub sin_port : ℕ
  pub s_addr : ℕ

abbrev pub af_inet : ℕ
af_inet = 2

abbrev pub server_port : ℕ
server_port = 12000

abbrev pub localhost : Text
localhost = text "127.0.0.1"

-- The calls of the operating system and its library. `inet_pton` gets the address as it stands, and
-- `recvfrom` gives the bytes of the datagram, cut at `n`, and its sender.
pub record Os (W : Type 0) : Type 0 where
  pub htons : ℕ → ℕ
  pub inet_pton : Text → ℕ → ℤ × ℕ
  pub socket : W → ℤ × W
  pub bind : W → ℤ → SockaddrIn → ℤ × W
  pub close : W → ℤ → W
  pub recvfrom : W → ℤ → ℕ → (ℤ × List ℕ × SockaddrIn) × W
  pub sendto : W → ℤ → List ℕ → SockaddrIn → ℤ × W

-- `client_t` with the fields that concern its socket.
pub record SocketClient : Type 0 where
  pub client : ChatClient
  pub sd : ℤ
  pub server_addr : SockaddrIn

module _ {W : Type 0} (os : Os W) where
  -- `none` is the address 0.0.0.0.
  unfoldable pub set_socket_addr : Option Text → ℕ → ℤ × SockaddrIn
  set_socket_addr ip port =
      let addr : SockaddrIn = record {
        sin_family = af_inet;
        sin_port = os.htons port;
        s_addr = 0;
      } in
      elim ip [
        | none ↦ (pos 0, addr)
        | some dotted ↦
            let (rc, s_addr) = os.inet_pton dotted addr.s_addr in
            let filled : SockaddrIn = record addr { s_addr = s_addr } in
            if is_positive rc then (pos 0, filled) else (failure, filled)
      ]

  unfoldable pub udp_socket_open : ℕ → W → ℤ × W
  udp_socket_open port w =
      let (sd, w1) = os.socket w in
      let this_addr = (set_socket_addr none port).1 in
      let (rc, w2) = os.bind w1 sd this_addr in
      if is_negative sd
      then (failure, w1)
      else if is_negative rc
      then (failure, os.close w2 sd)
      else (sd, w2)

  unfoldable pub udp_socket_read : ℤ → ℕ → W → (ℤ × List ℕ × SockaddrIn) × W
  udp_socket_read sd n w = os.recvfrom w sd n

  unfoldable pub udp_socket_write : ℤ → SockaddrIn → List ℕ → ℕ → W → ℤ × W
  udp_socket_write sd addr buffer n w = os.sendto w sd (take n buffer) addr

  -- The server's `setup` up to its queue: `none` where the assertion stops the program.
  unfoldable pub setup_socket : W → Option (ℤ × W)
  setup_socket w =
      let (sd, w1) = udp_socket_open server_port w in if is_negative sd then none else some (sd, w1)

  unfoldable pub init_client_socket : SocketClient → W → SocketClient × W
  init_client_socket c w =
      let (sd, w1) = udp_socket_open 0 w in
      let (rc, server_addr) = set_socket_addr (some localhost) server_port in
      if is_negative sd
      then (c, w1)
      else if is_negative rc
      then (c, os.close w1 sd)
      else (record c { sd = sd; server_addr = server_addr }, w1)

  -- `none` for a name that `strcpy` writes past its end.
  unfoldable pub connect_command : SocketClient → Text → W → Option (SocketClient × W)
  connect_command c name w =
      let (sd, w1) = udp_socket_open 0 w in
      let (rc, server_addr) = set_socket_addr (some localhost) server_port in
      let opened : SocketClient = record c { sd = sd; server_addr = server_addr } in
      if is_positive rc
      then elim (strcpy name_size name) [
        | none ↦ none
        | some name' ↦
            some (record opened { client = record c.client { name = name'; connected = true } }, w1)
      ]
      else some (opened, w1)
