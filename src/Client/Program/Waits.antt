-- ===== src/Client/Program/Waits.antt =====
-- The two input threads at `connection_cond`, which serves both of them.
use multithreaded_chat_appli.Base.{
  Bool, Bool-cases, Text, arith, false, inl, inr, refl, true, ◌∙◌, ◌≡◌, ◌≢◌,
}
use mathlib.Core.Path.{subst}
use multithreaded_chat_appli.Queue.{Queue}
use multithreaded_chat_appli.Client.Input.{
  Action, send, send_exit, complain, exit_program, ignore, user_input_pre_connection, user_input,
}
use multithreaded_chat_appli.Client.Node.{ClientNode}
use multithreaded_chat_appli.Client.Node as Node
use multithreaded_chat_appli.Sockets.{Os, SockaddrIn}
use multithreaded_chat_appli.Client.Program.Connected.{node_turn-connected}
use multithreaded_chat_appli.Client.Program.{
  Place, asleep, tests, reopen, init_socket, act_pre, act_post, write, sends_from, boot, Runs, stay,
  go, looks, reads, holds, leaving, Turn, node_step, pre_step, post_step, signal, Event, acts,
  types_pre, types_post, stirs_pre, stirs_post, turn, done, Program, signals, is_connected,
}

-- Each input thread sleeps only while the client is in the state that it waits out of.
pub record IsWaiting {W : Type 0} (p : Program W) : Type 0 where
  pub pre_waits : p.pre ≡ asleep → is_connected p ≡ true
  pub post_waits : p.post ≡ asleep → is_connected p ≡ false
  pub pre_here : p.pre ≢ leaving

abbrev pub KeepsWaiting : {W : Type 0} → Turn W → Type 0
KeepsWaiting (done p sent) = IsWaiting p
KeepsWaiting _ = Unit

module _ {W : Type 0} (p : Program W) (v : IsWaiting p) where
  signal-IsWaiting :
      (n : ClientNode) (first : Bool) → IsWaiting (signal first (record p { node = n }))
  unfolding signal
  signal-IsWaiting n first = ground (arith, v)

  left_keeps :
      (e : Node.Event) (first : Bool) (t : Node.Turn)
      → Node.turn p.node e ≡ t
      → KeepsWaiting (node_step p e first)
  unfolding node_step
  left_keeps e first Node.blocked h = rw (h, node_step) tt
  left_keeps e first Node.crashed h = rw (h, node_step) tt
  left_keeps e first (Node.done n) h = elim (Bool-cases (signals p.node e)) [
    | inl y ↦ rw (h, node_step) (rw y (signal-IsWaiting n first))
    | inr quiet ↦
        let same_connected = node_turn-connected p.node n e quiet h in
        rw (h, node_step)
          (rw quiet (record {
            pre_waits = λ z. same_connected ∙ v.pre_waits z;
            post_waits = λ z. same_connected ∙ v.post_waits z;
            pre_here = v.pre_here;
          }))
  ]

  module _ (os : Os W) where
    reopen-IsWaiting : IsWaiting (reopen os p)
    unfolding reopen init_socket
    reopen-IsWaiting = ground (arith, v)

    act_pre_keeps :
        (now_connected : Bool) (a : Action) → KeepsWaiting (act_pre os p now_connected a)
    unfolding act_pre sends_from write
    act_pre_keeps true (send m) = ground (arith, v)
    act_pre_keeps false (send m) = record {
      pre_waits = reopen-IsWaiting.pre_waits;
      post_waits = reopen-IsWaiting.post_waits;
      pre_here = reopen-IsWaiting.pre_here;
    }
    act_pre_keeps now_connected (send_exit m) = tt
    act_pre_keeps now_connected exit_program = tt
    act_pre_keeps now_connected (complain m) = v
    act_pre_keeps now_connected ignore = v

    act_post_keeps : (a : Action) → KeepsWaiting (act_post os p a)
    unfolding act_post sends_from write
    act_post_keeps (send m) = ground (arith, v)
    act_post_keeps (send_exit m) = ground (arith, v)
    act_post_keeps exit_program = tt
    act_post_keeps (complain m) = v
    act_post_keeps ignore = v

module _ {W : Type 0} (os : Os W) (p : Program W) (v : IsWaiting p) where
  pre_keeps : (place : Place) → KeepsWaiting (pre_step os p place)
  unfolding pre_step
  pre_keeps tests = ground (arith, v)
  pre_keeps asleep = tt
  pre_keeps looks = ground (arith, v)
  pre_keeps reads = ground (arith, v)
  pre_keeps (holds typed) =
      act_pre_keeps (record p { pre = tests }) (ground (arith, v)) os (is_connected p)
        (user_input_pre_connection (is_connected p) typed)
  pre_keeps leaving = tt

  post_keeps : (place : Place) → KeepsWaiting (post_step os p place)
  unfolding post_step
  post_keeps tests = ground (arith, v)
  post_keeps asleep = tt
  post_keeps looks = ground (arith, v)
  post_keeps reads = ground (arith, v)
  post_keeps (holds typed) =
      act_post_keeps (record p { post = tests }) (ground (arith, v)) os (user_input typed)
  post_keeps leaving = tt

  turn-IsWaiting : (e : Event) → KeepsWaiting (turn os p e)
  unfolding turn
  turn-IsWaiting (acts e first) = left_keeps p v e first (Node.turn p.node e) refl
  turn-IsWaiting types_pre = pre_keeps p.pre
  turn-IsWaiting types_post = post_keeps p.post
  turn-IsWaiting stirs_pre = ground (arith, v)
  turn-IsWaiting stirs_post = ground (arith, v)

module _ {W : Type 0} (os : Os W) (memory : Queue) (name : Text) (addr : SockaddrIn) (stdin : Text)
    (w : W) where
  boot-IsWaiting : IsWaiting (boot os memory name addr stdin w)
  unfolding boot init_socket
  boot-IsWaiting = record {
    pre_waits = λ z. absurd cc;
    post_waits = λ z. absurd cc;
    pre_here = λ z. absurd cc;
  }

  -- In every state that the client's threads reach, an input thread sleeps on `connection_cond`
  -- only while the client is in the state that this thread waits out of, although each signal
  -- wakes one thread and both wait there; the first thread never stands behind a last packet.
  pub reached-IsWaiting :
      {p : Program W} → Runs os (boot os memory name addr stdin w) p → IsWaiting p
  reached-IsWaiting stay = boot-IsWaiting
  reached-IsWaiting (go {q} runs e h) =
      subst KeepsWaiting h (turn-IsWaiting os q (reached-IsWaiting runs) e)
