-- ===== src/Tests/Activity.antt =====
-- Tests of the inactivity check.
use multithreaded_chat_appli.Base.{[], arith, none, refl, some, text, ◌-◌, ◌<◌, ◌∷◌, ◌≡◌}
use multithreaded_chat_appli.Cmd.{max_message}
use multithreaded_chat_appli.ClientList.{ClientList, write}
use multithreaded_chat_appli.ClientList.Refine.{Represents}
use multithreaded_chat_appli.ClientList.Remove.{remove_first}
use multithreaded_chat_appli.Server.{packet}
use multithreaded_chat_appli.Activity.{
  inactivity_threshold, ping_timeout, is_late, connection_manager,
}
use multithreaded_chat_appli.Activity.Laws.{connection_manager-kick}
use multithreaded_chat_appli.Tests.Data.{bob}

abbrev bob_alone : ClientList
bob_alone = record {
  nodes = write (λ _. none) 3 (some (record { next = none; client = bob }));
  fresh = 4;
  head = some 3;
  tail = some 3;
}

bob_alone-Represents : Represents bob_alone ((3, bob) ∷ [])
bob_alone-Represents = record {
  linked = (refl, tt);
  head = refl;
  tail = refl;
  distinct = (tt, tt);
  below = (omega arith, tt);
  enough = omega arith;
}

connection_manager-kick_example :
    (l' : ClientList) × (connection_manager bob_alone 187
      ≡ some (l', packet max_message (text "disconnresponse$") 22 ∷ []))
    × Represents l' (remove_first (text "bob") ((3, bob) ∷ []))
    × (inactivity_threshold < 187 - 6)
    × (ping_timeout < 187 - 9)
unfolding is_late
connection_manager-kick_example =
    connection_manager-kick bob_alone ((3, bob) ∷ []) bob_alone-Represents 187 bob refl
      (λ e. absurd (omega (arith, e)))
