-- ===== src/Protocol/Errors.antt =====
-- internal/protocol/main.go: what a user is shown when a tunnel fails.
use mmar.Constants.{
  client_disconnect_err_text, localhost_not_running_err_text, dest_request_timedout_err_text,
  read_resp_body_err_text, invalid_subdomain_name_err_text, subdomain_already_taken_err_text,
  auth_token_required_err_text, auth_token_invalid_err_text, auth_token_limit_exceeded_err_text,
}
use mmar.Http.{ResponseWriter, set_header, write_header, write, status_ok}
use mmar.Prelude.Decimal.{itoa}
use mmar.Prelude.Maps.{Map, lookup}
use mmar.Prelude.{ℕ, Bytes, codes, [], ◌∷◌, Option, none, some, nat_eq, length}
use mmar.Protocol.Types.{
  client_disconnect, localhost_not_running, dest_request_timedout, invalid_resp_from_dest,
  invalid_subdomain_name, subdomain_already_taken, auth_token_required, auth_token_invalid,
  auth_token_limit_exceeded,
}

abbrev fallback_err : Bytes
fallback_err = codes "An error occured while attempting to tunnel."

err_states : Map ℕ Bytes
err_states =
    (client_disconnect, client_disconnect_err_text)
    ∷ (localhost_not_running, localhost_not_running_err_text)
    ∷ (dest_request_timedout, dest_request_timedout_err_text)
    ∷ (invalid_resp_from_dest, read_resp_body_err_text)
    ∷ (invalid_subdomain_name, invalid_subdomain_name_err_text)
    ∷ (subdomain_already_taken, subdomain_already_taken_err_text)
    ∷ (auth_token_required, auth_token_required_err_text)
    ∷ (auth_token_invalid, auth_token_invalid_err_text)
    ∷ (auth_token_limit_exceeded, auth_token_limit_exceeded_err_text)
    ∷ []

text_or : Option Bytes → Bytes → Bytes
text_or none fallback = fallback
text_or (some text) fallback = text

unfoldable pub tunnel_err_state : ℕ → Bytes
unfolding err_states text_or lookup
tunnel_err_state err_state = text_or (lookup err_state err_states) fallback_err

unfoldable pub respond_tunnel_err : ℕ → ResponseWriter → ResponseWriter
respond_tunnel_err err_state w =
    let err_body = tunnel_err_state err_state in
    write err_body (
      write_header status_ok (
        set_header (codes "Connection") (codes "close")
          (set_header (codes "Content-Length") (itoa (length err_body)) w)))
