-- ===== src/Client/Program/Harmless.antt =====
-- The client as a whole, and its node.
use multithreaded_chat_appli.Base.{
  Bool, Bool-cases, arith, false, inl, inr, length, refl, sym, true, ◌≡◌,
}
use mathlib.Core.Path.{subst}
use multithreaded_chat_appli.Sockets.{Os}
use multithreaded_chat_appli.Server.{max_msgs}
use multithreaded_chat_appli.Client.Input.{
  Action, send, send_exit, complain, exit_program, ignore, user_input_pre_connection, user_input,
}
use multithreaded_chat_appli.Client.Node.{ClientNode}
use multithreaded_chat_appli.Client.Node as Node
use multithreaded_chat_appli.Client.Node.Safe.{IsSafe}
use multithreaded_chat_appli.Client.Node.Full.{BringsMild, IsHarmless, turn-IsHarmless}
use multithreaded_chat_appli.Client.Program.{
  reopen, init_socket, Place, asleep, tests, looks, reads, holds, leaving, blocked, crashed, exited,
  is_connected, Event, acts, types_pre, types_post, stirs_pre, stirs_post, turn, pre_step,
  post_step, act_pre, act_post, signal, signals, node_step, Program, Turn, done, sends_from, write,
}

-- A step of an input thread leaves the node.
abbrev KeepsNode : {W : Type 0} → ClientNode → Turn W → Type 0
KeepsNode n crashed = ⊥
KeepsNode n (done p sent) = p.node ≡ n
KeepsNode n _ = Unit

-- The turn leaves the node safe, or crashes it with its lines full.
abbrev pub LeavesSafe : {W : Type 0} → ClientNode → Turn W → Type 0
LeavesSafe n crashed = length n.client.messages ≡ max_msgs
LeavesSafe n (done p sent) = IsSafe p.node
LeavesSafe n _ = Unit

kept-LeavesSafe :
    {W : Type 0} (n : ClientNode) (t : Turn W) → IsSafe n → KeepsNode n t → LeavesSafe n t
kept-LeavesSafe n blocked s k = tt
kept-LeavesSafe n crashed s k = absurd k
kept-LeavesSafe n exited s k = tt
kept-LeavesSafe n (done p sent) s k = subst IsSafe (sym k) s

abbrev pub EventBringsMild : Event → Type 0
EventBringsMild (acts e first) = BringsMild e
EventBringsMild _ = Unit

module _ {W : Type 0} (os : Os W) where
  reopen-node : (p : Program W) → (reopen os p).node ≡ p.node
  unfolding reopen init_socket
  reopen-node p = ground arith

  act_pre_keeps :
      (p : Program W) (now_connected : Bool) (a : Action)
      → KeepsNode p.node (act_pre os p now_connected a)
  unfolding act_pre sends_from write
  act_pre_keeps p true (send m) = refl
  act_pre_keeps p false (send m) = reopen-node p
  act_pre_keeps p now_connected (send_exit m) = tt
  act_pre_keeps p now_connected exit_program = tt
  act_pre_keeps p now_connected (complain m) = refl
  act_pre_keeps p now_connected ignore = refl

  act_post_keeps : (p : Program W) (a : Action) → KeepsNode p.node (act_post os p a)
  unfolding act_post sends_from write
  act_post_keeps p (send m) = refl
  act_post_keeps p (send_exit m) = refl
  act_post_keeps p exit_program = tt
  act_post_keeps p (complain m) = refl
  act_post_keeps p ignore = refl

  module _ (p : Program W) where
    pre_keeps : (place : Place) → KeepsNode p.node (pre_step os p place)
    unfolding pre_step
    pre_keeps tests = ground arith
    pre_keeps asleep = tt
    pre_keeps looks = ground arith
    pre_keeps reads = ground arith
    pre_keeps (holds typed) =
        act_pre_keeps (record p { pre = tests }) (is_connected p)
          (user_input_pre_connection (is_connected p) typed)
    pre_keeps leaving = tt

    post_keeps : (place : Place) → KeepsNode p.node (post_step os p place)
    unfolding post_step
    post_keeps tests = ground arith
    post_keeps asleep = tt
    post_keeps looks = ground arith
    post_keeps reads = ground arith
    post_keeps (holds typed) = act_post_keeps (record p { post = tests }) (user_input typed)
    post_keeps leaving = tt

    signal_keeps : (n : ClientNode) (first : Bool) → (signal first (record p { node = n })).node ≡ n
    unfolding signal
    signal_keeps n first = ground arith

    node_leaves :
        (e : Node.Event) (first : Bool) (t : Node.Turn)
        → Node.turn p.node e ≡ t
        → IsHarmless p.node t
        → LeavesSafe p.node (node_step p e first)
    unfolding node_step
    node_leaves e first Node.blocked q h = rw (q, node_step) tt
    node_leaves e first Node.crashed q h = rw (q, node_step) h
    node_leaves e first (Node.done n) q h = elim (Bool-cases (signals p.node e)) [
      | inr quiet ↦ rw (q, node_step) (rw quiet h)
      | inl y ↦ rw (q, node_step) (rw y (subst IsSafe (sym (signal_keeps n first)) h))
    ]

    pub turn-LeavesSafe :
        IsSafe p.node → (e : Event) → EventBringsMild e → LeavesSafe p.node (turn os p e)
    unfolding turn
    turn-LeavesSafe s (acts e first) mild =
        node_leaves e first (Node.turn p.node e) refl (turn-IsHarmless p.node s e mild)
    turn-LeavesSafe s types_pre mild =
        kept-LeavesSafe p.node (pre_step os p p.pre) s (pre_keeps p.pre)
    turn-LeavesSafe s types_post mild =
        kept-LeavesSafe p.node (post_step os p p.post) s (post_keeps p.post)
    turn-LeavesSafe s stirs_pre mild = s
    turn-LeavesSafe s stirs_post mild = s
