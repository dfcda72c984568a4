-- ===== src/Queue/Alias.antt =====
-- The pointers that `q_pop` returns point into a cell of the queue. With one consumer they stay
-- good until its next pop: the cell that is always left free is the one that was popped.
use mathlib.Core.Path.{subst}
use multithreaded_chat_appli.Base.{
  List, Option, [], ap, ap₂, arith, drop, eq_of_some, get_or-set_ne, map, refl, some, sym, ℕ,
  ℕ_discrete, ◌%◌, ◌+◌, ◌-◌, ◌∙◌, ◌∷◌, ◌≡◌,
}
use multithreaded_chat_appli.CString.{cstring}
use multithreaded_chat_appli.Queue.{
  Addr, Node, Queue, Popped, deref, q_append, q_pop, at_cell, queue_max, blank_node,
}
use multithreaded_chat_appli.Queue.Inv.{
  IsValid, popped, q_append-full, q_append-room, q_pop-empty, q_pop-some, popped-IsValid,
}
use multithreaded_chat_appli.Queue.Window.{cell}
use multithreaded_chat_appli.Queue.Refine.{q_append-IsValid}

-- Any number of appends, by whatever threads.
pub data Appends (q : Queue) : Queue → Type 0 where
  here : Appends q q
  next :
      {t u : Queue} (msg : List ℕ) (addr : Option Addr)
      → Appends q t
      → q_append t msg addr ≡ some u
      → Appends q u

-- The cell in front of the head.
abbrev pub free_cell : Queue → ℕ
free_cell q = (q.head + queue_max - 1) % queue_max

-- An append never writes the cell in front of the head, and leaves the head alone.
q_append-free_cell :
    (q u : Queue) (msg : List ℕ) (addr : Option Addr)
    → IsValid q
    → q_append q msg addr ≡ some u
    → (u.head ≡ q.head) × (cell u.cells (free_cell q) ≡ cell q.cells (free_cell q))
q_append-free_cell q u msg addr v e = elim (ℕ_discrete q.size (queue_max - 1)) [
  | yes full ↦ cc (q_append-full q msg addr v full)
  | no room ↦
      subst
        (λ (t : Queue).
          (t.head ≡ q.head) × (cell t.cells (free_cell q) ≡ cell q.cells (free_cell q)))
        (eq_of_some _ _ (sym (q_append-room q msg addr v room) ∙ e))
        (refl, get_or-set_ne q.cells _ blank_node (omega arith))
]

Appends-free_cell :
    {q u : Queue}
    → IsValid q
    → Appends q u
    → IsValid u × (u.head ≡ q.head) × (cell u.cells (free_cell q) ≡ cell q.cells (free_cell q))
Appends-free_cell v here = (v, refl, refl)
Appends-free_cell {q} v (next {t} {u} msg addr more e) =
    let (vt, ht, ct) = Appends-free_cell v more in
    let (hu, cu) = q_append-free_cell t u msg addr vt e in
    (
      q_append-IsValid t msg addr vt e,
      hu ∙ ht,
      subst (λ (h : ℕ). let i = (h + queue_max - 1) % queue_max in cell u.cells i ≡ cell t.cells i)
            ht cu
          ∙ ct,
    )

deref-at_cell_eq :
    (q u : Queue) (i : ℕ) (ps : List ℕ)
    → cell u.cells i ≡ cell q.cells i
    → map (deref u) (at_cell i ps) ≡ map (deref q) (at_cell i ps)
unfolding deref
deref-at_cell_eq q u i [] e = refl
deref-at_cell_eq q u i (p ∷ ps) e =
    ap₂ ◌∷◌ (ap (λ (n : Node). cstring (drop p n.msg)) e) (deref-at_cell_eq q u i ps e)

-- The tokens of a popped message read the same after any number of appends right after the pop,
-- whatever the appends store, for a valid queue.
pub tokens_survive :
    (q u : Queue) (r : Popped)
    → IsValid q
    → q_pop q ≡ some r
    → Appends r.queue u
    → map (deref u) r.out ≡ map (deref r.queue) r.out
tokens_survive q u r v e more = elim (ℕ_discrete q.size 0) [
  | yes none_left ↦ cc (q_pop-empty q v none_left)
  | no some_left ↦
      let found = eq_of_some _ _ (sym (q_pop-some q v some_left) ∙ e) in
      subst (λ (t : Popped). Appends t.queue u → map (deref u) t.out ≡ map (deref t.queue) t.out)
        found
        (λ m. deref-at_cell_eq (popped q) u q.head _ (
          subst (λ (i : ℕ). cell u.cells i ≡ cell (popped q).cells i) (omega arith)
            (Appends-free_cell (popped-IsValid q v some_left) m).2))
        more
]
