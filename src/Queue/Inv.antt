-- ===== src/Queue/Inv.antt =====
-- The invariant of the queue: the indices and the count agree, and every message that waits is
-- terminated inside its cell.
use multithreaded_chat_appli.Base.{
  All, All-append, All-take, Bool-cases, List, Option, Text, [], ap, ap₂, arith, if◌then◌else◌, inl,
  inr, length, length-set, map, none, refl, same, set, some, sym, take, true, ℕ, ◌%◌, ◌++◌, ◌+◌,
  ◌-◌, ◌<◌, ◌==◌, ◌↔◌, ◌∙◌, ◌∷◌, ◌≡◌, ◌≢◌,
}
use native.Mathlib.Numerals.{add-one}
use multithreaded_chat_appli.CString.{cstring}
use multithreaded_chat_appli.CString.Memory.{cstring-append, cstring-All, strncpy-terminated}
use multithreaded_chat_appli.Queue.{
  queue_init, Addr, Node, Queue, queue_max, fill_node, is_full, q_append, at_cell, sender_of,
  get_and_tokenise, q_pop,
}
use multithreaded_chat_appli.Queue.Window.{cell, window, window-set, window-set_out, window_head}

abbrev pub IsTerminated : Node → Type 0
IsTerminated n = (rest : List ℕ) × (n.msg ≡ cstring n.msg ++ (0 ∷ rest))

abbrev pub waiting : Queue → List Node
waiting q = window q.cells q.head q.size

pub record IsValid (q : Queue) : Type 0 where
  pub room : length q.cells ≡ queue_max
  pub head_in : q.head < queue_max
  pub tail_in : q.tail < queue_max
  pub count : q.size ≡ (q.tail + queue_max - q.head) % queue_max
  pub terminated : All IsTerminated (waiting q)

-- Whatever stands in its cells, a queue is valid behind `queue_init`.
pub queue_init-IsValid : (q : Queue) → length q.cells ≡ queue_max → IsValid (queue_init q)
unfolding queue_init
queue_init-IsValid q h = record {
  room = h;
  head_in = omega arith;
  tail_in = omega arith;
  count = omega arith;
  terminated = tt;
}

-- What a consumer will see of a cell: its text, and who sent it.
abbrev pub Entry : Type 0
Entry = Text × Option Addr

abbrev pub entry_of : Node → Entry
entry_of n = (cstring n.msg, if n.has_addr then some n.from_addr else none)

abbrev pub contents : Queue → List Entry
contents q = map entry_of (waiting q)

-- The cell that an append fills is terminated, and holds the start of the message.
fill_node_msg :
    (old : Node) (msg : List ℕ) (addr : Option Addr)
    → (rest : List ℕ) × ((fill_node old msg addr).msg ≡ take 511 (cstring msg) ++ (0 ∷ rest))
unfolding fill_node
fill_node_msg old msg none = strncpy-terminated msg 511
fill_node_msg old msg (some a) = strncpy-terminated msg 511

cstring-fill_node :
    (old : Node) (msg : List ℕ) (addr : Option Addr)
    → cstring (fill_node old msg addr).msg ≡ take 511 (cstring msg)
cstring-fill_node old msg addr =
    let (rest, e) = fill_node_msg old msg addr in
    ap cstring e
    ∙ cstring-append (take 511 (cstring msg)) rest
        (All-take (λ c. c ≢ 0) 511 (cstring msg) (cstring-All msg))

sender-fill_node :
    (old : Node) (msg : List ℕ) (addr : Option Addr) → (entry_of (fill_node old msg addr)).1 ≡ addr
unfolding fill_node
sender-fill_node old msg none = refl
sender-fill_node old msg (some a) = refl

pub entry_of-fill_node :
    (old : Node) (msg : List ℕ) (addr : Option Addr)
    → entry_of (fill_node old msg addr) ≡ (take 511 (cstring msg), addr)
entry_of-fill_node old msg addr =
    ap₂ (λ (t : Text) (a : Option Addr). let x : Entry = (t, a) in x)
      (cstring-fill_node old msg addr) (sender-fill_node old msg addr)

fill_node-IsTerminated :
    (old : Node) (msg : List ℕ) (addr : Option Addr) → IsTerminated (fill_node old msg addr)
fill_node-IsTerminated old msg addr =
    let (rest, e) = fill_node_msg old msg addr in
    (rest, e ∙ ap (λ (t : Text). t ++ (0 ∷ rest)) (sym (cstring-fill_node old msg addr)))

-- What an append makes of a queue that has room.
abbrev pub appended : Queue → List ℕ → Option Addr → Queue
appended q msg addr = record q {
  cells = set q.cells q.tail (fill_node (cell q.cells q.tail) msg addr);
  tail = (q.tail + 1) % queue_max;
  size = q.size + 1;
}

-- Full means 255 messages: one cell stays free.
pub is_full_iff : (q : Queue) → IsValid q → (is_full q ≡ true) ↔ (q.size ≡ queue_max - 1)
unfolding is_full
is_full_iff q v = ground arith

module _ (q : Queue) (msg : List ℕ) (addr : Option Addr) (v : IsValid q) where
  pub q_append-full : q.size ≡ queue_max - 1 → q_append q msg addr ≡ none
  unfolding q_append
  q_append-full full = rw ((is_full_iff q v).1 full)

  pub q_append-room : q.size ≢ queue_max - 1 → q_append q msg addr ≡ some (appended q msg addr)
  unfolding q_append
  q_append-room h = elim (Bool-cases (is_full q)) [
    | inl e ↦ absurd (h ((is_full_iff q v).0 e))
    | inr e ↦ rw e
  ]

  pub waiting-appended :
      q.size ≢ queue_max - 1
      → waiting (appended q msg addr) ≡ waiting q ++ (fill_node (cell q.cells q.tail) msg addr ∷ [])
  waiting-appended h = rw add-one (
      window-set q.cells (fill_node (cell q.cells q.tail) msg addr) q.size q.head q.tail v.room
        v.head_in (omega arith) (omega arith))

  pub appended-IsValid : q.size ≢ queue_max - 1 → IsValid (appended q msg addr)
  appended-IsValid h = record {
    room = length-set q.cells q.tail _ ∙ v.room;
    head_in = v.head_in;
    tail_in = omega arith;
    count = omega arith;
    terminated = rw (waiting-appended h) (
        All-append IsTerminated (waiting q) _ v.terminated (fill_node-IsTerminated _ msg addr, tt));
  }

-- The queue behind a pop.
pub q_pop-empty : (q : Queue) → IsValid q → q.size ≡ 0 → q_pop q ≡ none
unfolding q_pop
q_pop-empty q v e = elim (Bool-cases (q.head == q.tail)) [
  | inl same ↦ rw same
  | inr other ↦ absurd (ground arith)
]

abbrev pub popped : Queue → Queue
popped q = record q {
  cells =
      set q.cells q.head
        (record (cell q.cells q.head) { msg = (get_and_tokenise (cell q.cells q.head).msg).1 });
  head = (q.head + 1) % queue_max;
  size = q.size - 1;
}

pub q_pop-some :
    (q : Queue)
    → IsValid q
    → q.size ≢ 0
    → q_pop q
      ≡ some (record {
        out = at_cell q.head (get_and_tokenise (cell q.cells q.head).msg).0;
        sender = sender_of (cell q.cells q.head);
        queue = popped q;
      })
unfolding q_pop
q_pop-some q v e = elim (Bool-cases (q.head == q.tail)) [
  | inl same ↦ absurd (ground arith)
  | inr other ↦ rw other
]

module _ (q : Queue) (v : IsValid q) (h : q.size ≢ 0) where
  pub waiting-popped : waiting q ≡ cell q.cells q.head ∷ waiting (popped q)
  waiting-popped =
      window_head q.cells q.head q.size h
      ∙ ap (λ (r : List Node). cell q.cells q.head ∷ r)
          (sym (
            window-set_out q.cells _ (q.size - 1) ((q.head + 1) % queue_max) q.head (queue_max - 1)
              (omega arith) (omega arith) (omega arith) (omega arith)))

  pub popped-IsValid : IsValid (popped q)
  popped-IsValid = record {
    room = length-set q.cells q.head _ ∙ v.room;
    head_in = omega arith;
    tail_in = v.tail_in;
    count = omega arith;
    terminated =
        (let t : All IsTerminated (cell q.cells q.head ∷ waiting (popped q)) =
            rw waiting-popped at v.terminated in
          t.1);
  }
