-- ===== src/Client/Program/Opened.antt =====
-- The socket of the client as a whole.
use multithreaded_chat_appli.Base.{
  Bool, Bool-cases, List, Option-cases, Text, ap, false, inl, inr, not, refl, same, suc, sym, true,
  zero, ℕ, ◌&&◌, ◌||◌, ◌∙◌, ◌∷◌, ◌≡◌, ◌⊎◌,
}
use multithreaded_chat_appli.Sockets.{
  ℤ, pos, Os, SockaddrIn, SocketClient, init_client_socket, udp_socket_write, is_negative,
  is_positive, negsuc,
}
use multithreaded_chat_appli.Sockets.Laws.{Descriptors, init_client_socket-opened}
use mathlib.Core.Path.{subst}
use multithreaded_chat_appli.Queue.{Queue}
use multithreaded_chat_appli.Client.Input.{
  Action, send, send_exit, complain, exit_program, ignore, user_input_pre_connection, user_input,
}
use multithreaded_chat_appli.Client.Node as Node
use multithreaded_chat_appli.Client.Program.{
  Place, asleep, tests, looks, reads, holds, leaving, is_connected, Event, acts, types_pre,
  types_post, stirs_pre, stirs_post, turn, pre_step, post_step, act_pre, act_post, Runs, stay, go,
  boot, signal, signals, node_step, max_len, fgets, is_asleep, Program, Turn, done, sends_from,
  write, reopen, init_socket, is_zero,
}

-- A socket's descriptor is not the standard input's, which is open, and to send opens and closes
-- nothing.
pub record SocketLaws {W : Type 0} (os : Os W) (d : Descriptors os) : Type 0 where
  pub not_stdin : (w : W) → is_zero (os.socket w).0 ≡ false
  pub sendto_keeps :
      (w : W) (sd : ℤ) (m : List ℕ) (addr : SockaddrIn)
      → d.opened (os.sendto w sd m addr).1 ≡ d.opened w

module _ {W : Type 0} (os : Os W) (d : Descriptors os) (k : SocketLaws os d) (w0 : W) where
  -- The client has no socket and nothing new is open, or just its socket is.
  abbrev pub HasSocket : Program W → Type 0
  HasSocket p =
      ((p.sd ≡ pos 0) × (d.opened p.world ≡ d.opened w0))
      ⊎ ((is_positive p.sd ≡ true) × (d.opened p.world ≡ p.sd ∷ d.opened w0))

  HasSocket-same :
      (p q : Program W)
      → (q.sd ≡ p.sd)
      → (d.opened q.world ≡ d.opened p.world)
      → HasSocket p
      → HasSocket q
  HasSocket-same p q e o (inl (z, h)) = inl (e ∙ z, o ∙ h)
  HasSocket-same p q e o (inr (z, h)) =
      inr (ap is_positive e ∙ z, o ∙ h ∙ ap (λ t. t ∷ d.opened w0) (sym e))

  abbrev pub KeepsSocket : Turn W → Type 0
  KeepsSocket (done p sent) = HasSocket p
  KeepsSocket _ = Unit

  is_positive_iff : (sd : ℤ) → is_zero sd ≡ false → is_negative sd ≡ false → is_positive sd ≡ true
  is_positive_iff (pos zero) z n = sym z
  is_positive_iff (pos (suc m)) z n = refl
  is_positive_iff (negsuc m) z n = sym n

  init_socket-HasSocket :
      (p : Program W) → p.sd ≡ pos 0 → d.opened p.world ≡ d.opened w0 → HasSocket (init_socket os p)
  unfolding init_socket
  init_socket-HasSocket p z o =
      let c : SocketClient = record {
        client = p.node.client;
        sd = p.sd;
        server_addr = p.server_addr;
      } in
      elim (init_client_socket-opened os d p.world c) [
        | inl (same, kept) ↦ inl (ap (λ s. s.sd) same ∙ z, kept ∙ o)
        | inr (positive, grown, fresh, _) ↦ inr (
          is_positive_iff _ (ap is_zero fresh ∙ k.not_stdin p.world) positive,
          grown ∙ ap (λ t. (init_client_socket os c p.world).0.sd ∷ t) o,
        )
      ]

  reopen-HasSocket : (p : Program W) → HasSocket p → HasSocket (reopen os p)
  unfolding reopen
  reopen-HasSocket p (inl (z, o)) =
      let zero_sd : is_zero p.sd ≡ true = ap is_zero z in rw zero_sd (init_socket-HasSocket p z o)
  reopen-HasSocket p (inr (z, o)) = elim (Bool-cases (is_zero p.sd)) [
    | inl y ↦ absurd (apart p.sd y z)
    | inr n ↦ rw n (inr (z, o))
  ]
    where
      apart : (sd : ℤ) → is_zero sd ≡ true → is_positive sd ≡ true → ⊥
      apart (pos zero) y z = cc
      apart (pos (suc m)) y z = cc
      apart (negsuc m) y z = cc

  sends-HasSocket : (p : Program W) (m : Text) → HasSocket p → KeepsSocket (sends_from os p m)
  unfolding sends_from write udp_socket_write
  sends-HasSocket p m h =
      HasSocket-same p (write os p m).0 refl (k.sendto_keeps p.world p.sd _ p.server_addr) h

  act_pre_keeps :
      (p : Program W) (now_connected : Bool) (a : Action)
      → HasSocket p
      → KeepsSocket (act_pre os p now_connected a)
  unfolding act_pre
  act_pre_keeps p true (send m) h = sends-HasSocket p m h
  act_pre_keeps p false (send m) h = sends-HasSocket (reopen os p) m (reopen-HasSocket p h)
  act_pre_keeps p now_connected (send_exit m) h = tt
  act_pre_keeps p now_connected exit_program h = tt
  act_pre_keeps p now_connected (complain m) h = h
  act_pre_keeps p now_connected ignore h = h

  act_post_keeps : (p : Program W) (a : Action) → HasSocket p → KeepsSocket (act_post os p a)
  unfolding act_post
  act_post_keeps p (send m) h = sends-HasSocket p m h
  act_post_keeps p (send_exit m) h = sends-HasSocket (record p { post = leaving }) m h
  act_post_keeps p exit_program h = tt
  act_post_keeps p (complain m) h = h
  act_post_keeps p ignore h = h

  module _ (p : Program W) (h : HasSocket p) where
    pre_keeps : (place : Place) → KeepsSocket (pre_step os p place)
    unfolding pre_step
    pre_keeps tests = elim (Bool-cases (is_connected p)) [ inl e ↦ rw e h | inr e ↦ rw e h ]
    pre_keeps asleep = tt
    pre_keeps looks = elim (Bool-cases (is_connected p)) [ inl e ↦ rw e h | inr e ↦ rw e h ]
    pre_keeps reads = elim (Option-cases (fgets max_len p.stdin)) [
      | inl e ↦ rw (e, pre_step) h
      | inr (r, e) ↦ rw (e, pre_step) h
    ]
    pre_keeps (holds typed) =
        act_pre_keeps (record p { pre = tests }) (is_connected p)
          (user_input_pre_connection (is_connected p) typed) h
    pre_keeps leaving = tt

    post_keeps : (place : Place) → KeepsSocket (post_step os p place)
    unfolding post_step
    post_keeps tests = elim (Bool-cases (is_connected p)) [ inl e ↦ rw e h | inr e ↦ rw e h ]
    post_keeps asleep = tt
    post_keeps looks = elim (Bool-cases (is_connected p)) [ inl e ↦ rw e h | inr e ↦ rw e h ]
    post_keeps reads = elim (Option-cases (fgets max_len p.stdin)) [
      | inl e ↦ rw (e, post_step) h
      | inr (r, e) ↦ rw (e, post_step) h
    ]
    post_keeps (holds typed) = act_post_keeps (record p { post = tests }) (user_input typed) h
    post_keeps leaving = tt

    left_keeps :
        (e : Node.Event) (first : Bool) (t : Node.Turn)
        → Node.turn p.node e ≡ t
        → KeepsSocket (node_step p e first)
    unfolding node_step signal
    left_keeps e first Node.blocked q = rw (q, node_step) tt
    left_keeps e first Node.crashed q = rw (q, node_step) tt
    left_keeps e first (Node.done n) q =
        let p' : Program W = record p { node = n } in
        elim (Bool-cases (signals p.node e)) [
          | inr quiet ↦ rw (q, node_step) (rw quiet h)
          | inl y ↦ elim (Bool-cases (is_asleep p.pre && (first || not (is_asleep p.post)))) [
            | inl z ↦ rw (q, node_step) (rw y (rw (z, signal) h))
            | inr z ↦ rw (q, node_step) (rw y (rw (z, signal) h))
          ]
        ]

    turn_keeps : (e : Event) → KeepsSocket (turn os p e)
    unfolding turn
    turn_keeps (acts e first) = left_keeps e first (Node.turn p.node e) refl
    turn_keeps types_pre = pre_keeps p.pre
    turn_keeps types_post = post_keeps p.post
    turn_keeps stirs_pre = h
    turn_keeps stirs_post = h

  module _ (memory : Queue) (name : Text) (addr : SockaddrIn) (stdin : Text) where
    -- In every state that the client's threads reach, the client has no socket and no new
    -- descriptor is open, or its socket is the one new descriptor that is open, where the system's
    -- calls open and close descriptors as documented and never give a socket the descriptor 0.
    pub reached-HasSocket :
        {p : Program W} → Runs os (boot os memory name addr stdin w0) p → HasSocket p
    unfolding boot
    reached-HasSocket stay = init_socket-HasSocket _ refl refl
    reached-HasSocket (go {q} runs e h) =
        subst KeepsSocket h (turn_keeps q (reached-HasSocket runs) e)
