-- ===== src/Queue/Schedule.antt =====
-- Schedules: the calls of the threads in the order in which they take the queue's lock.
use multithreaded_chat_appli.Base.{
  List, Option, Option-cases, Text, [], ap, inl, inr, map, none, refl, some, ℕ, ◌∷◌, ◌≡◌,
}
use multithreaded_chat_appli.Queue.{Addr, Queue, deref, q_append, q_pop}
use multithreaded_chat_appli.Queue.Inv.{IsValid, Entry, contents}
use multithreaded_chat_appli.Queue.Refine.{
  put_entry, get_entry, received, q_append_refines, q_pop_refines, q_append-IsValid, q_pop-IsValid,
}

-- One call of the producer or the consumer, in the order in which they take the lock.
pub data Call : Type 0 where
  append : List ℕ → Option Addr → Call
  pop : Call

pub data Reply : Type 0 where
  blocked stored : Reply
  took : List Text → Addr → Reply

-- The calls of a schedule with what each returns; a blocked call leaves the queue alone.
pub run : Queue → List Call → List Reply
run q [] = []
run q (append msg addr ∷ cs) = elim (q_append q msg addr) [
  | none ↦ blocked ∷ run q cs
  | some q' ↦ stored ∷ run q' cs
]
run q (pop ∷ cs) = elim (q_pop q) [
  | none ↦ blocked ∷ run q cs
  | some r ↦ took (map (deref r.queue) r.out) r.sender ∷ run r.queue cs
]

unfoldable pub run_entries : List Entry → List Call → List Reply
run_entries es [] = []
run_entries es (append msg addr ∷ cs) = elim (put_entry es msg addr) [
  | none ↦ blocked ∷ run_entries es cs
  | some es' ↦ stored ∷ run_entries es' cs
]
run_entries es (pop ∷ cs) = elim (get_entry es) [
  | none ↦ blocked ∷ run_entries es cs
  | some r ↦ took r.0 r.1 ∷ run_entries r.2 cs
]

-- No schedule of appends and pops tells a valid queue from the bounded list of the messages in it:
-- every call gives the same reply.
pub run_refines : (cs : List Call) (q : Queue) → IsValid q → run q cs ≡ run_entries (contents q) cs
unfolding run run_entries
run_refines [] q v = refl
run_refines (append msg addr ∷ cs) q v =
    rw (← q_append_refines q msg addr v, run_entries)
      (elim (Option-cases (q_append q msg addr)) [
        | inl e ↦ rw (e, run) (ap (λ r. blocked ∷ r) (run_refines cs q v))
        | inr (q', e) ↦
            rw (e, run) (ap (λ r. stored ∷ r) (run_refines cs q' (q_append-IsValid q msg addr v e)))
      ])
run_refines (pop ∷ cs) q v =
    rw (← q_pop_refines q v, run_entries)
      (elim (Option-cases (q_pop q)) [
        | inl e ↦ rw (e, run) (ap (λ r. blocked ∷ r) (run_refines cs q v))
        | inr (p, e) ↦
            rw (e, run)
              (ap (λ r. took (received p).0 p.sender ∷ r)
                (run_refines cs p.queue (q_pop-IsValid q v e)))
      ])
