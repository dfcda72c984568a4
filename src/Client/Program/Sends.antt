-- ===== src/Client/Program/Sends.antt =====
-- The packets of the client's input threads, over whole schedules.
use multithreaded_chat_appli.Base.{
  Bool, Bool-cases, List, Option-cases, Text, [], arith, false, inl, inr, not, refl, text, true,
  ◌&&◌, ◌++◌, ◌||◌, ◌∷◌, ◌≡◌, ◌⊎◌,
}
use mathlib.Core.Path.{subst}
use multithreaded_chat_appli.Sockets.{Os}
use multithreaded_chat_appli.Client.Input.{
  Action, send, send_exit, complain, exit_program, ignore, user_input_pre_connection, user_input,
}
use multithreaded_chat_appli.Client.Node as Node
use multithreaded_chat_appli.Client.Program.{
  Place, asleep, tests, looks, reads, holds, leaving, is_connected, Event, acts, types_pre,
  types_post, stirs_pre, stirs_post, turn, pre_step, post_step, act_pre, act_post, Datagram, signal,
  signals, node_step, max_len, fgets, is_asleep, Program, Turn, done, reopen, init_socket,
  sends_from, write, woken, is_zero,
}
use multithreaded_chat_appli.Client.Program.Lines.{
  IsLine, IsTyped, fgets-IsLine, before_newline-IsTyped, pre_sends, post_sends, post_leaves,
}

-- A line in hand is one that the buffer has room for.
abbrev pub Holds : Place → Type 0
Holds (holds typed) = IsLine typed
Holds _ = Unit

abbrev pub HasLines : {W : Type 0} → Program W → Type 0
HasLines p = Holds p.pre × Holds p.post

-- The packet of a text, with its terminator, to the server's address.
abbrev pub IsPacket : {W : Type 0} → Program W → Text → List Datagram → Type 0
IsPacket p m sent = sent ≡ record { to = p.server_addr; bytes = m ++ (0 ∷ []) } ∷ []

-- A step sends nothing, or one packet of a line.
abbrev pub Sends : {W : Type 0} → Program W → List Datagram → Type 0
Sends p sent = (sent ≡ []) ⊎ ((m : Text) × IsTyped m × IsPacket p m sent)

abbrev pub IsTidy : {W : Type 0} → Turn W → Type 0
IsTidy (done p sent) = HasLines p × Sends p sent
IsTidy _ = Unit

woken-Holds : (place : Place) → Holds place → Holds (woken place)
woken-Holds tests h = tt
woken-Holds asleep h = tt
woken-Holds looks h = tt
woken-Holds reads h = tt
woken-Holds (holds typed) h = h
woken-Holds leaving h = tt

disconn-IsTyped : IsTyped (text "disconn$")
disconn-IsTyped = record {
  is_line = record { short = omega arith; plain = ground arith };
  one_line = ground arith;
}

module _ {W : Type 0} (os : Os W) where
  sends_from-IsTidy :
      (p : Program W) (m : Text) → HasLines p → IsTyped m → IsTidy (sends_from os p m)
  unfolding sends_from write
  sends_from-IsTidy p m h t = (h, inr (m, t, refl))

  reopen-HasLines : (p : Program W) → HasLines p → HasLines (reopen os p)
  unfolding reopen init_socket
  reopen-HasLines p h = elim (Bool-cases (is_zero p.sd)) [ inl e ↦ rw e h | inr e ↦ rw e h ]

  act_pre-IsTidy :
      (p : Program W) (b : Bool) (typed : Text) (a : Action)
      → HasLines p
      → IsLine typed
      → user_input_pre_connection b typed ≡ a
      → IsTidy (act_pre os p b a)
  unfolding act_pre
  act_pre-IsTidy p true typed (send m) h v e =
      sends_from-IsTidy p m h
        (subst IsTyped (pre_sends true typed m v e) (before_newline-IsTyped typed v))
  act_pre-IsTidy p false typed (send m) h v e =
      sends_from-IsTidy (reopen os p) m (reopen-HasLines p h)
        (subst IsTyped (pre_sends false typed m v e) (before_newline-IsTyped typed v))
  act_pre-IsTidy p b typed (send_exit m) h v e = tt
  act_pre-IsTidy p b typed exit_program h v e = tt
  act_pre-IsTidy p b typed (complain m) h v e = (h, inl refl)
  act_pre-IsTidy p b typed ignore h v e = (h, inl refl)

  act_post-IsTidy :
      (p : Program W) (typed : Text) (a : Action)
      → HasLines p
      → IsLine typed
      → user_input typed ≡ a
      → IsTidy (act_post os p a)
  unfolding act_post
  act_post-IsTidy p typed (send m) h v e =
      sends_from-IsTidy p m h
        (subst IsTyped (post_sends typed m e) (before_newline-IsTyped typed v))
  act_post-IsTidy p typed (send_exit m) h v e =
      sends_from-IsTidy (record p { post = leaving }) m (h.0, tt)
        (subst IsTyped (post_leaves typed m e) disconn-IsTyped)
  act_post-IsTidy p typed exit_program h v e = tt
  act_post-IsTidy p typed (complain m) h v e = (h, inl refl)
  act_post-IsTidy p typed ignore h v e = (h, inl refl)

  module _ (p : Program W) (h : HasLines p) where
    pre-IsTidy : (place : Place) → Holds place → IsTidy (pre_step os p place)
    unfolding pre_step
    pre-IsTidy tests l = elim (Bool-cases (is_connected p)) [
      | inl e ↦ rw e ((tt, h.1), inl refl)
      | inr e ↦ rw e ((tt, h.1), inl refl)
    ]
    pre-IsTidy asleep l = tt
    pre-IsTidy looks l = elim (Bool-cases (is_connected p)) [
      | inl e ↦ rw e ((tt, h.1), inl refl)
      | inr e ↦ rw e ((tt, h.1), inl refl)
    ]
    pre-IsTidy reads l = elim (Option-cases (fgets max_len p.stdin)) [
      | inl e ↦ rw (e, pre_step) ((tt, h.1), inl refl)
      | inr ((line, rest), e) ↦ rw (e, pre_step) ((fgets-IsLine p.stdin line rest e, h.1), inl refl)
    ]
    pre-IsTidy (holds typed) l =
        act_pre-IsTidy (record p { pre = tests }) (is_connected p) typed
          (user_input_pre_connection (is_connected p) typed) (tt, h.1) l refl
    pre-IsTidy leaving l = tt

    post-IsTidy : (place : Place) → Holds place → IsTidy (post_step os p place)
    unfolding post_step
    post-IsTidy tests l = elim (Bool-cases (is_connected p)) [
      | inl e ↦ rw e ((h.0, tt), inl refl)
      | inr e ↦ rw e ((h.0, tt), inl refl)
    ]
    post-IsTidy asleep l = tt
    post-IsTidy looks l = elim (Bool-cases (is_connected p)) [
      | inl e ↦ rw e ((h.0, tt), inl refl)
      | inr e ↦ rw e ((h.0, tt), inl refl)
    ]
    post-IsTidy reads l = elim (Option-cases (fgets max_len p.stdin)) [
      | inl e ↦ rw (e, post_step) ((h.0, tt), inl refl)
      | inr ((line, rest), e) ↦
          rw (e, post_step) ((h.0, fgets-IsLine p.stdin line rest e), inl refl)
    ]
    post-IsTidy (holds typed) l =
        act_post-IsTidy (record p { post = tests }) typed (user_input typed) (h.0, tt) l refl
    post-IsTidy leaving l = tt

    signal-HasLines :
        (n : Node.ClientNode) (first : Bool) → HasLines (signal first (record p { node = n }))
    unfolding signal
    signal-HasLines n first =
        elim (Bool-cases (is_asleep p.pre && (first || not (is_asleep p.post)))) [
          | inl e ↦ rw e (woken-Holds p.pre h.0, h.1)
          | inr e ↦ rw e (h.0, woken-Holds p.post h.1)
        ]

    left-IsTidy :
        (e : Node.Event) (first : Bool) (t : Node.Turn)
        → Node.turn p.node e ≡ t
        → IsTidy (node_step p e first)
    unfolding node_step
    left-IsTidy e first Node.blocked q = rw (q, node_step) tt
    left-IsTidy e first Node.crashed q = rw (q, node_step) tt
    left-IsTidy e first (Node.done n) q = elim (Bool-cases (signals p.node e)) [
      | inr quiet ↦ rw (q, node_step) (rw quiet (h, inl refl))
      | inl y ↦ rw (q, node_step) (rw y (signal-HasLines n first, inl refl))
    ]

    pub turn-IsTidy : (e : Event) → IsTidy (turn os p e)
    unfolding turn
    turn-IsTidy (acts e first) = left-IsTidy e first (Node.turn p.node e) refl
    turn-IsTidy types_pre = pre-IsTidy p.pre h.0
    turn-IsTidy types_post = post-IsTidy p.post h.1
    turn-IsTidy stirs_pre = ((woken-Holds p.pre h.0, h.1), inl refl)
    turn-IsTidy stirs_post = ((h.0, woken-Holds p.post h.1), inl refl)
