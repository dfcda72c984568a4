-- ===== src/Server/Phases/System/Reached.antt =====
-- The states that the steps of the threads lead to.
use multithreaded_chat_appli.Base.{Bool, [], arith, false, true, ◌≡◌}
use mathlib.Core.Path.{subst}
use multithreaded_chat_appli.ClientList.Refine.{Represents}
use multithreaded_chat_appli.ClientList.Refine.{no_clients-Represents}
use multithreaded_chat_appli.Server.{Server}
use multithreaded_chat_appli.Service.Rounds.{look_shown}
use multithreaded_chat_appli.Server.Phases.System.{
  walks, stores, has_client, Phase, has_pointers, has_line, has_node, has_private, Threads, Step,
  spawns, goes_on, ends, checks, Reach, here, next, start,
}
use multithreaded_chat_appli.Server.Phases.System.Sound.{IsWell, KeepsWell, step-KeepsWell}

Step-IsWell : {t u : Threads} → Step t u → IsWell t.server → IsWell u.server
Step-IsWell {t} (spawns command addr) w = w
Step-IsWell {t} (goes_on before after r at now e) (xs, v) =
    subst KeepsWell e (step-KeepsWell t.server xs v r.command r.from_addr now r.phase)
Step-IsWell {t} (ends before after r at now e) (xs, v) =
    subst KeepsWell e (step-KeepsWell t.server xs v r.command r.from_addr now r.phase)
Step-IsWell {t} (checks {l} {packets} now e) (xs, v) =
    let (l', xs', looked, v', _) =
      look_shown (record t.server { chat_history = [] }) xs now
        (record { linked = v; room = omega arith }) in
    let same_list : l' ≡ l = cc in (xs', subst (λ m. Represents m xs') same_list v'.linked)
Step-IsWell {t} (stores history) w = w

-- In every state that threads of commands reach from an empty server, with the steps of the
-- dispatch's walk and mark, those of the handlers between which others may run, the rounds of the
-- inactivity check and any changes of the history in any order, the client list is well linked.
pub reached-IsWell : {t : Threads} → Reach start t → IsWell t.server
reached-IsWell here = ([], no_clients-Represents)
reached-IsWell (next reach step) = Step-IsWell step (reached-IsWell reach)

-- A thread that holds a pointer into the list from an earlier step.
abbrev pub holds_pointer : Phase → Bool
holds_pointer (walks _) = true
holds_pointer (has_client _) = true
holds_pointer (has_pointers _) = true
holds_pointer (has_line _ _) = true
holds_pointer (has_node _) = true
holds_pointer (has_private _) = true
holds_pointer _ = false
