-- ===== src/Queue.antt =====
-- queue.h: the bounded queue of messages between a listener thread and its queue manager, and the
-- cut of a message into command words. Each function runs under the queue's lock, so it is one
-- step; `none` says that the caller sleeps on a condition variable and tries again.
mod WordAt
mod Tokens
pub mod Tokenise
pub mod Window
pub mod Inv
pub mod Refine
pub mod Schedule
pub mod Alias
use multithreaded_chat_appli.Base.{
  ℕ, zero, suc, ◌+◌, ◌-◌, ◌%◌, List, [], ◌∷◌, Option, none, some, Bool, true, false, ◌==◌,
  if◌then◌else◌, Text, drop, get_or, set,
}
use multithreaded_chat_appli.CString.{cstring, strncpy, strtok}

abbrev pub queue_max : ℕ
queue_max = 256

abbrev pub queue_msg_size : ℕ
queue_msg_size = 512

abbrev pub max_command_len : ℕ
max_command_len = 50

-- `struct sockaddr_in`, its bytes read as one number: it is only copied, zeroed, and compared by
-- `memcmp`.
abbrev pub Addr : Type 0
Addr = ℕ

-- `queue_node_t`
pub record Node : Type 0 where
  pub msg : List ℕ  -- char[QUEUE_MSG_SIZE]
  pub from_addr : Addr
  pub has_addr : Bool

-- `Queue`, without its lock and condition variables
pub record Queue : Type 0 where
  pub cells : List Node
  pub head : ℕ
  pub tail : ℕ
  pub size : ℕ

-- What stands in a cell that was never written is arbitrary: it is `queue_init`'s argument.
unfoldable pub queue_init : Queue → Queue
queue_init q = record q { head = 0; tail = 0; size = 0 }

-- A `char *` into the message of a cell of the queue.
pub record Pointer : Type 0 where
  pub cell : ℕ
  pub offset : ℕ

abbrev pub blank_node : Node
blank_node = record { msg = []; from_addr = 0; has_addr = false }

-- The string that a pointer shows now.
unfoldable pub deref : Queue → Pointer → Text
deref q p = cstring (drop p.offset (get_or q.cells p.cell blank_node).msg)

-- `memmove(p, p + 1, strlen(p))` behind `p`: the bytes up to the terminator move down by one, and
-- the terminator stays where it was, too.
unfoldable pub close_gap : List ℕ → List ℕ
close_gap [] = []
close_gap (c ∷ mem) = if c == 0 then 0 ∷ 0 ∷ mem else c ∷ close_gap mem

unfoldable pub remove_dollar_sign : List ℕ → List ℕ
unfolding close_gap
remove_dollar_sign [] = []
remove_dollar_sign (c ∷ mem) =
    if c == 0 then c ∷ mem else if c == b'$' then close_gap mem else c ∷ remove_dollar_sign mem

-- The loop over `strtok`, with the slots left in `args`, the token at hand, the memory and the
-- offset that `strtok` saved.
unfoldable pub take_tokens : ℕ → Option ℕ → List ℕ → ℕ → List ℕ × List ℕ
take_tokens room none mem saved = ([], mem)
take_tokens zero (some token) mem saved = ([], mem)
take_tokens (suc room) (some token) mem saved =
    let next = strtok mem saved in
    let rest = take_tokens room next.0 next.1 next.2 in (token ∷ rest.0, rest.1)

-- The offsets of the tokens (the end of the list is the NULL behind them), and the message as the
-- cut leaves it.
unfoldable pub get_and_tokenise : List ℕ → List ℕ × List ℕ
get_and_tokenise msg =
    let first = strtok (remove_dollar_sign msg) 0 in
    take_tokens (max_command_len - 1) first.0 first.1 first.2

-- The cell that an append leaves at the tail, over what it held before.
unfoldable pub fill_node : Node → List ℕ → Option Addr → Node
fill_node old msg none = record old {
  msg = set (strncpy msg queue_msg_size) (queue_msg_size - 1) 0;
  has_addr = false;
}
fill_node old msg (some addr) = record {
  msg = set (strncpy msg queue_msg_size) (queue_msg_size - 1) 0;
  from_addr = addr;
  has_addr = true;
}

unfoldable pub is_full : Queue → Bool
is_full q = (q.tail + 1) % queue_max == q.head

-- `msg` is the memory that the argument points to; `addr` is `none` for a NULL.
unfoldable pub q_append : Queue → List ℕ → Option Addr → Option Queue
q_append q msg addr =
    if is_full q
    then none
    else some (record q {
      cells = set q.cells q.tail (fill_node (get_or q.cells q.tail blank_node) msg addr);
      tail = (q.tail + 1) % queue_max;
      size = q.size + 1;
    })

-- What a pop puts into `*sender`.
unfoldable pub sender_of : Node → Addr
sender_of n = if n.has_addr then n.from_addr else 0

pub record Popped : Type 0 where
  pub out : List Pointer
  pub sender : Addr
  pub queue : Queue

abbrev pub at_cell : ℕ → List ℕ → List Pointer
at_cell i [] = []
at_cell i (p ∷ ps) = record { cell = i; offset = p } ∷ at_cell i ps

unfoldable pub q_pop : Queue → Option Popped
unfolding sender_of
q_pop q =
    if q.head == q.tail
    then none
    else let node = get_or q.cells q.head blank_node in
      let cut = get_and_tokenise node.msg in
      some (record {
        out = at_cell q.head cut.0;
        sender = sender_of node;
        queue = record q {
          cells = set q.cells q.head (record node { msg = cut.1 });
          head = (q.head + 1) % queue_max;
          size = q.size - 1;
        };
      })
