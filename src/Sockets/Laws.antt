-- ===== src/Sockets/Laws.antt =====
-- What the opening of a socket leaves open.
use multithreaded_chat_appli.Base.{
  Bool-cases, List, Option, Text, false, inl, inr, none, refl, some, true, ℕ, ◌∙◌, ◌∷◌, ◌≡◌, ◌⊎◌,
}
use multithreaded_chat_appli.Sockets.{
  ℤ, is_negative, is_positive, SockaddrIn, Os, SocketClient, set_socket_addr, udp_socket_open,
  init_client_socket, connect_command, localhost, server_port,
}

-- The open descriptors of a state, and what the calls do to them.
pub record Descriptors {W : Type 0} (os : Os W) : Type 0 where
  pub opened : W → List ℤ
  pub socket_fails :
      (w : W) → is_negative (os.socket w).0 ≡ true → opened (os.socket w).1 ≡ opened w
  pub socket_opens :
      (w : W)
      → is_negative (os.socket w).0 ≡ false
      → opened (os.socket w).1 ≡ (os.socket w).0 ∷ opened w
  pub bind_keeps : (w : W) (sd : ℤ) (addr : SockaddrIn) → opened (os.bind w sd addr).1 ≡ opened w
  pub close_closes :
      (w : W) (sd : ℤ) (rest : List ℤ) → opened w ≡ sd ∷ rest → opened (os.close w sd) ≡ rest

module _ {W : Type 0} (os : Os W) (d : Descriptors os) (w : W) where
  -- The result of an opening, and the state behind it.
  abbrev pub IsOpening : ℤ × W → Type 0
  IsOpening (sd, w') =
      ((is_negative sd ≡ true) × (d.opened w' ≡ d.opened w))
      ⊎ ((is_negative sd ≡ false) × (d.opened w' ≡ sd ∷ d.opened w) × (sd ≡ (os.socket w).0))

  -- `udp_socket_open` fails and leaves no descriptor open, or opens just the one that it returns, which
  -- is the system's.
  pub udp_socket_open-opened : (port : ℕ) → IsOpening (udp_socket_open os port w)
  unfolding udp_socket_open
  udp_socket_open-opened port =
      let (sd, w1) = os.socket w in
      let addr = (set_socket_addr os none port).1 in
      let bound = os.bind w1 sd addr in
      elim (Bool-cases (is_negative sd)) [
        | inl e ↦ rw e (inl (refl, d.socket_fails w e))
        | inr e ↦
            let kept : d.opened bound.1 ≡ sd ∷ d.opened w =
              d.bind_keeps w1 sd addr ∙ d.socket_opens w e in
            elim (Bool-cases (is_negative bound.0)) [
              | inl e' ↦ rw e (rw e' (inl (refl, d.close_closes bound.1 sd (d.opened w) kept)))
              | inr e' ↦ rw e (rw e' (inr (e, kept, refl)))
            ]
      ]

  -- `set_socket_addr` gives 0 or a failure.
  never_positive :
      (ip : Option Text) (port : ℕ) → is_positive (set_socket_addr os ip port).0 ≡ false
  unfolding set_socket_addr
  never_positive none port = refl
  never_positive (some dotted) port = elim (Bool-cases (is_positive (os.inet_pton dotted 0).0)) [
    | inl e ↦ rw e refl
    | inr e ↦ rw e refl
  ]

  -- `init_client_socket` leaves the client as it is and no new descriptor open, or gives it the
  -- one new descriptor that is open, which is not negative, where the system's calls open and
  -- close descriptors as documented.
  pub init_client_socket-opened :
      (c : SocketClient)
      → let (c', w') = init_client_socket os c w in
        ((c' ≡ c) × (d.opened w' ≡ d.opened w))
        ⊎ ((is_negative c'.sd ≡ false)
            × (d.opened w' ≡ c'.sd ∷ d.opened w)
            × (c'.sd ≡ (os.socket w).0)
            × (c'.client ≡ c.client))
  unfolding init_client_socket
  init_client_socket-opened c =
      let set = set_socket_addr os (some localhost) server_port in
      let (sd, w1) = udp_socket_open os 0 w in
      elim (udp_socket_open-opened 0) [
        | inl (e, kept) ↦ rw e (inl (refl, kept))
        | inr (e, grown, given) ↦ elim (Bool-cases (is_negative set.0)) [
          | inl e' ↦ rw e (rw e' (inl (refl, d.close_closes w1 sd (d.opened w) grown)))
          | inr e' ↦ rw e (rw e' (inr (e, grown, given, refl)))
        ]
      ]

  -- `connect_command` never connects the client, whatever the system's calls return, and a
  -- descriptor that it opened stays open, where the calls open and close descriptors as
  -- documented.
  pub connect_command_never :
      (c : SocketClient) (name : Text)
      → (c' : SocketClient) × (w' : W) × (connect_command os c name w ≡ some (c', w'))
        × (c'.client ≡ c.client)
        × IsOpening (c'.sd, w')
  unfolding connect_command
  connect_command_never c name =
      let (sd, w1) = udp_socket_open os 0 w in
      let set = set_socket_addr os (some localhost) server_port in
      (
        record c { sd = sd; server_addr = set.1 },
        w1,
        rw (never_positive (some localhost) server_port) refl,
        refl,
        udp_socket_open-opened 0,
      )
