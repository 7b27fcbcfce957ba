-- ===== src/Server/World/Keeping.antt =====
-- internal/server/main.go: what holds of the server's tables over any of its histories.
use mathlib.Core.Path.{subst}
use mmar.Http.{ServerResponse}
use mmar.Prelude.Maps.{Map}
use mmar.Prelude.{ℕ, Bytes, List, none, some}
use mmar.Server.State.{ClientTunnel}
use mmar.Server.Cancel.{cancel}
use mmar.Server.Loop.Safety.{send_heartbeat-Keeps, process_message-Keeps}
use mmar.Server.Keeps.{Invariant, Holds}
use mmar.Server.Requests.Keeping.{handle_response-Keeps, with_request-Holds, finish-Holds}
use mmar.Server.Requests.{ParsedResponse}
use mmar.Server.Serialize.{serialize_request}
use mmar.Server.World.{
  World, Step, accept, spawn, round, heartbeat, respond, look_up, send, abandon, give_up, end,
  break, Reach, here, next,
}

module _ (read_response : ℕ → Bytes → ParsedResponse) (write_response : ServerResponse → Bytes)
    (write_headers : Map Bytes (List Bytes) → Bytes) where
  -- The step closes a tunnel, if it closes any, only where that is allowed: it acts for no tunnel, or
  -- for one of these.
  abbrev pub ActsFor :
      (P : ClientTunnel → Type 0) {w v : World}
      → Step read_response write_response write_headers w v
      → Type 0
  ActsFor P (accept c created_on conn free) = Unit
  ActsFor P (spawn c t ct msg m reads hands) = Unit
  ActsFor P (round draws c t none received n s reads rest h) = Unit
  ActsFor P (round draws c t (some ct) received n s reads rest h) = P ct
  ActsFor P (heartbeat c t none s reads h) = Unit
  ActsFor P (heartbeat c t (some ct) s reads h) = P ct
  ActsFor P (respond before after none m s waits h) = Unit
  ActsFor P (respond before after (some ct) m s waits h) = P ct
  ActsFor P (look_up k req writer ct new host known) = Unit
  ActsFor P (send draws fuel k ct req writer b s ready h) = Unit
  ActsFor P (abandon k ct req writer ready) = Unit
  ActsFor P (give_up k ct req_id waits) = Unit
  ActsFor P (end k ct req_id writer s waits h) = Unit
  ActsFor P (break c e) = Unit

  -- So do all steps of a history.
  abbrev pub AllActFor :
      (P : ClientTunnel → Type 0) {w v : World}
      → Reach read_response write_response write_headers w v
      → Type 0
  AllActFor P here = Unit
  AllActFor P (next reach step) = AllActFor P reach × ActsFor P step

  Step-ActsFor :
      {P : ClientTunnel → Type 0} {w v : World}
      → ((ct : ClientTunnel) → P ct)
      → (step : Step read_response write_response write_headers w v) → ActsFor P step
  Step-ActsFor all (accept c created_on conn free) = tt
  Step-ActsFor all (spawn c t ct msg m reads hands) = tt
  Step-ActsFor all (round draws c t none received n s reads rest h) = tt
  Step-ActsFor all (round draws c t (some ct) received n s reads rest h) = all ct
  Step-ActsFor all (heartbeat c t none s reads h) = tt
  Step-ActsFor all (heartbeat c t (some ct) s reads h) = all ct
  Step-ActsFor all (respond before after none m s waits h) = tt
  Step-ActsFor all (respond before after (some ct) m s waits h) = all ct
  Step-ActsFor all (look_up k req writer ct new host known) = tt
  Step-ActsFor all (send draws fuel k ct req writer b s ready h) = tt
  Step-ActsFor all (abandon k ct req writer ready) = tt
  Step-ActsFor all (give_up k ct req_id waits) = tt
  Step-ActsFor all (end k ct req_id writer s waits h) = tt
  Step-ActsFor all (break c e) = tt

  Reach-AllActFor :
      {P : ClientTunnel → Type 0} {w v : World}
      → ((ct : ClientTunnel) → P ct)
      → (reach : Reach read_response write_response write_headers w v) → AllActFor P reach
  Reach-AllActFor all here = tt
  Reach-AllActFor all (next reach step) = (Reach-AllActFor all reach, Step-ActsFor all step)

  Step-Holds :
      (I : Invariant) {w v : World} (step : Step read_response write_response write_headers w v)
      → ActsFor (I.may_close) step
      → Holds I w.server
      → Holds I v.server
  unfolding cancel
  Step-Holds I (accept c created_on conn free) may capped = capped
  Step-Holds I (spawn c t ct msg m reads hands) may capped = capped
  Step-Holds I {w} (round draws c t none received n s reads rest h) may capped =
      process_message-Keeps draws read_response write_response I none t received w.server n s tt
        capped h
  Step-Holds I {w} (round draws c t (some ct) received n s reads rest h) may capped =
      process_message-Keeps draws read_response write_response I (some ct) t received w.server n s
        may capped h
  Step-Holds I {w} (heartbeat c t none s reads h) may capped =
      send_heartbeat-Keeps I none t w.server tt capped s h
  Step-Holds I {w} (heartbeat c t (some ct) s reads h) may capped =
      send_heartbeat-Keeps I (some ct) t w.server may capped s h
  Step-Holds I {w} (respond before after none m s waits h) may capped =
      handle_response-Keeps read_response I none m w.server tt capped s h
  Step-Holds I {w} (respond before after (some ct) m s waits h) may capped =
      handle_response-Keeps read_response I (some ct) m w.server may capped s h
  Step-Holds I (look_up k req writer ct new host known) may capped = capped
  Step-Holds I {w} (send draws fuel k ct req writer b s ready h) may capped =
      subst (λ p. Holds I p.1) h
        (with_request-Holds I write_headers draws fuel ct k writer w.server
          (serialize_request write_headers req) capped)
  Step-Holds I (abandon k ct req writer ready) may capped = capped
  Step-Holds I (give_up k ct req_id waits) may capped = capped
  Step-Holds I {w} (end k ct req_id writer s waits h) may capped =
      subst (λ p. Holds I p.1) h (finish-Holds I ct req_id k w.server capped)
  Step-Holds I (break c e) may capped = capped

  -- Over any history of the server, in any order of the steps of its goroutines, whose steps act
  -- only for tunnels that may be closed: a property of the tables that the making of tunnels and
  -- the closing of those keep holds if it holds at first.
  pub Reach-Holds_acting :
      (I : Invariant) {w v : World} (reach : Reach read_response write_response write_headers w v)
      → AllActFor (I.may_close) reach
      → Holds I w.server
      → Holds I v.server
  Reach-Holds_acting I here may capped = capped
  Reach-Holds_acting I (next reach step) may capped =
      Step-Holds I step may.1 (Reach-Holds_acting I reach may.0 capped)

  -- The same for a property that the closing of every tunnel keeps.
  pub Reach-Holds :
      (I : Invariant) {w v : World}
      → ((ct : ClientTunnel) → I.may_close ct)
      → Reach read_response write_response write_headers w v
      → Holds I w.server
      → Holds I v.server
  Reach-Holds I all reach = Reach-Holds_acting I reach (Reach-AllActFor all reach)
