-- ===== src/Server/Start/Ending.antt =====
-- internal/server/main.go: why the process of a server ends.
use mmar.Http.{ServerResponse}
use mmar.Prelude.Io.{Outcome, ok, err, panic}
use mmar.Prelude.Maps.{Map}
use mmar.Prelude.{
  ℕ, ◌≡◌, ◌≢◌, refl, sym, ◌∙◌, true, Bytes, List, Option, none, some, Bool-cases, ◌⊎◌, inl, inr,
}
use mmar.Protocol.Conn.{Tunnel}
use mmar.Protocol.{TunnelMessage}
use mmar.Server.Keeps.{Runs, HasChannels}
use mmar.Server.Loop.NoCrash.{send_heartbeat-Runs, process_message-Runs}
use mmar.Server.Loop.{process_message}
use mmar.Server.Requests.Keeping.{handle_response-Runs}
use mmar.Server.Requests.{ParsedResponse}
use mmar.Server.Start.Process.{
  Process, start, Panics, round_panics, heartbeat_panics, response_panics, Step, listens,
  listen_fails, http_listens, http_returns, works, interrupt, Exit, panicked, Lives, begins,
  goes_on,
}
use mmar.Server.Start.Process
use mmar.Server.State.{ClientTunnel, MmarServer, Running, running, crashed}
use mmar.Server.World.{World}

-- A tunnel that nothing can be done for: there is none yet and its pointer is nil, or its channels are
-- closed already.
abbrev pub Unusable : Option ClientTunnel → MmarServer → Type 0
Unusable none s = Unit
Unusable (some ct) s = (s.shareds ct.shared).channels_closed ≡ true

both_not : {exit : Option Exit} → exit ≡ none → exit ≢ some panicked
both_not e h = let both : ◌≡◌ {A = Option Exit} none (some panicked) = sym e ∙ h in absurd (cc)

-- What runs has not crashed.
not_crashed {ℓ} : {A : Type ℓ} {r : Running A} → Runs r → r ≢ crashed
not_crashed (a, e) h = let both : running a ≡ crashed = sym e ∙ h in absurd (cc)

module _ (read_response : ℕ → Bytes → ParsedResponse) (write_response : ServerResponse → Bytes)
    (write_headers : Map Bytes (List Bytes) → Bytes) where
  -- What a panic comes from: a message whose reading panicked, or a tunnel that nothing can be done for.
  abbrev pub PanicCause : {w : World} → Panics read_response write_response write_headers w → Type 0
  PanicCause {w} (round_panics draws c t ct received reads h) =
      (received ≡ panic) ⊎ Unusable ct w.server
  PanicCause {w} (heartbeat_panics c t ct reads h) = Unusable ct w.server
  PanicCause {w} (response_panics before after ct m waits h) = Unusable ct w.server

  -- A step that runs while the channels are open, and has crashed.
  closed_if_crashed {ℓ} :
      {A : Type ℓ} {r : Running A} (ct : ClientTunnel) (s : MmarServer)
      → (HasChannels ct s → Runs r)
      → r ≡ crashed
      → Unusable (some ct) s
  closed_if_crashed ct s runs h = elim (Bool-cases (s.shareds ct.shared).channels_closed) [
    | inl closed ↦ closed
    | inr o ↦ absurd (not_crashed (runs o) h)
  ]

  round-PanicCause :
      (s : MmarServer) (draws : ℕ → ℕ → ℕ) (t : Tunnel) (ct : Option ClientTunnel)
      (received : Outcome TunnelMessage)
      → process_message draws read_response write_response ct t received s ≡ crashed
      → (received ≡ panic) ⊎ Unusable ct s
  round-PanicCause s draws t none received h = inr tt
  round-PanicCause s draws t (some ct) panic h = inl refl
  round-PanicCause s draws t (some ct) (ok m) h = inr (
      closed_if_crashed ct s
        (λ o. process_message-Runs draws read_response write_response ct t (ok m) s o (λ e. cc)) h)
  round-PanicCause s draws t (some ct) (err e) h = inr (
      closed_if_crashed ct s
        (λ o. process_message-Runs draws read_response write_response ct t (err e) s o (λ e. cc)) h)

  Panics-PanicCause :
      (w : World) (how : Panics read_response write_response write_headers w) → PanicCause how
  Panics-PanicCause w (round_panics draws c t ct received reads h) =
      round-PanicCause w.server draws t ct received h
  Panics-PanicCause w (heartbeat_panics c t none reads h) = tt
  Panics-PanicCause w (heartbeat_panics c t (some ct) reads h) =
      closed_if_crashed ct w.server (send_heartbeat-Runs ct t w.server) h
  Panics-PanicCause w (response_panics before after none m waits h) = tt
  Panics-PanicCause w (response_panics before after (some ct) m waits h) =
      closed_if_crashed ct w.server (handle_response-Runs read_response ct m w.server) h

  -- Whatever happens to the process of a server, in any order of the steps of its goroutines: if a
  -- panic has ended it, then the reading of a message panicked, or a round, a heartbeat or the
  -- handling of a response crashed that had no tunnel, or one whose channels were closed already.
  pub Lives-PanicCause :
      {p q : Process}
      → Lives read_response write_response write_headers p q
      → p.exit ≡ none
      → q.exit ≡ some panicked
      → (how : Panics read_response write_response write_headers q.world) × PanicCause how
  Lives-PanicCause begins alive ended = absurd (both_not alive ended)
  Lives-PanicCause (goes_on run (listens up new)) alive ended = absurd (both_not up ended)
  Lives-PanicCause (goes_on run (listen_fails up new)) alive ended = absurd (cc)
  Lives-PanicCause (goes_on run (http_listens up new)) alive ended = absurd (both_not up ended)
  Lives-PanicCause (goes_on run (http_returns up)) alive ended = absurd (both_not up ended)
  Lives-PanicCause (goes_on run (works step up served)) alive ended = absurd (both_not up ended)
  Lives-PanicCause (goes_on run (interrupt up)) alive ended = absurd (cc)
  Lives-PanicCause (goes_on {q} run (Process.panic up how)) alive ended =
      (how, Panics-PanicCause q.world how)
