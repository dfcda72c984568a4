-- ===== src/Service/Orderly.antt =====
-- What the server's rounds keep and send.
use multithreaded_chat_appli.Base.{All, List, sym, ◌≡◌}
use mathlib.Core.Path.{subst}
use multithreaded_chat_appli.ClientList.Chain.{Item}
use multithreaded_chat_appli.Server.{Packet}
use multithreaded_chat_appli.Room.Packets.{IsGood}
use multithreaded_chat_appli.Service.{Service, Turn, done, Event, turn}
use multithreaded_chat_appli.Service.Hall.{HallTurn, hall_turn}
use multithreaded_chat_appli.Service.Agree.{IsReady, hall_of, Agrees, turn-Agrees}
use multithreaded_chat_appli.Service.Fine.{IsOrderly, IsSane, IsFineTurn, turn_fine}

-- What a round that is done leaves and sends.
done_fine :
    (t : Turn) (h : HallTurn) {w : Service} {packets : List Packet}
    → Agrees t h
    → IsFineTurn h
    → t ≡ done w packets
    → (ys : List Item) × IsReady w ys × IsOrderly (hall_of w ys) × All IsGood packets
done_fine t HallTurn.blocked a f e = absurd cc
done_fine t HallTurn.crashed a f e = absurd cc
done_fine t (HallTurn.done h sent) {w} {packets} (v', xs', e', r, same_hall) (o, good) e =
    let same_state : v' ≡ w = cc in
    let same_packets : sent ≡ packets = cc in
    (
      xs',
      subst (λ v. IsReady v xs') same_state r,
      subst (λ v. IsOrderly (hall_of v xs')) same_state (subst IsOrderly (sym same_hall) o),
      subst (All IsGood) same_packets good,
    )

module _ (v : Service) (xs : List Item) (r : IsReady v xs) (o : IsOrderly (hall_of v xs))
    (e : Event) (sane : IsSane e) where
  -- A round of a server whose parts are in order, and whose names, lines, waiting commands and
  -- commands that are not initialised fit their slots, leaves all that so; every packet that it
  -- sends has its text and a terminator within the bytes sent, at most 512, and words that a
  -- client's join has room for.
  pub turn-IsOrderly :
      {w : Service} {packets : List Packet}
      → turn v e ≡ done w packets
      → (ys : List Item) × IsReady w ys × IsOrderly (hall_of w ys) × All IsGood packets
  turn-IsOrderly q =
      done_fine (turn v e) (hall_turn (hall_of v xs) e) (turn-Agrees v xs r e)
        (turn_fine (hall_of v xs) o e sane) q
