-- ===== src/Client/Rounds.antt =====
-- internal/client/main.go: the loop of `ProcessTunnelMessages`.
use mmar.Client.{
  MmarClient, Going, goes_on, returned, exits, crashed, Attempt, Certificate, ParsedRequest,
  Forwarded, process_tunnel_message,
}
use mmar.Prelude.Io.{Outcome}
use mmar.Prelude.{Bool, Bytes, List, [], ◌∷◌, Option, none, some, if◌then◌else◌}
use mmar.Protocol.{TunnelMessage}

-- A round: whether the context is done when it begins, and is cancelled behind an error; the attempts to
-- reconnect; and what is received.
pub record Round : Type 0 where
  pub done : Bool
  pub cancelled : Bool
  pub attempts : List Attempt
  pub received : Outcome TunnelMessage

pub after_round :
    Option (Going MmarClient) → (MmarClient → Option (Going MmarClient)) → Option (Going MmarClient)
after_round (some (goes_on mc)) rest = rest mc
after_round (some returned) rest = some returned
after_round (some (exits code)) rest = some (exits code)
after_round (some crashed) rest = some crashed
after_round none rest = none

module _ (certificate : Bytes → Certificate) (read_request : Bytes → ParsedRequest)
    (url_parses : Bytes → Bool) (forward : Bytes → Bytes → Forwarded) where
  -- A request is handled in a goroutine of its own, which replies by one write; the rounds stand in the
  -- order in which they have their effect.
  unfoldable pub process_tunnel_messages : List Round → MmarClient → Option (Going MmarClient)
  unfolding after_round process_tunnel_message
  process_tunnel_messages [] mc = some (goes_on mc)
  process_tunnel_messages (r ∷ rounds) mc =
      let rest =
        after_round
          (process_tunnel_message certificate read_request url_parses forward r.cancelled r.attempts
            mc r.received)
          (process_tunnel_messages rounds) in
      if r.done then some returned else rest
