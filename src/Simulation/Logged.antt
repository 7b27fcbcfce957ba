-- ===== src/Simulation/Logged.antt =====
-- simulations/simulation_utils.go and internal/logger/main.go: the URL in the lines that a client logs
-- when its tunnel is there.
use mmar.Constants
use mmar.Constants.{green}
use mmar.Logger.{created_line, shown_address, log_tunnel_created, color_log_str}
use mmar.Prelude.Text.{Lacks, split, split-join, join, contains-Lacks, append-Lacks}
use mmar.Prelude.{
  ℕ, ◌≡◌, refl, ◌∙◌, Bool, true, false, Bytes, codes, List, [], ◌∷◌, ◌++◌, append_assoc, append-nil,
  arith, All, inl, inr, if◌then◌else◌, bytes_eq, ◌==◌, some, eqn, contains, nat_eq, Bool-cases,
}
use mmar.Simulation.Patterns.{
  find_string_skips, find_string_start, match_here-many, match_here-literal,
}
use mmar.Simulation.Urls.{Run}
use mmar.Simulation.{
  many, match_here, host_char, digit, tunnel_url_pattern, extract_tunnel_url, tunnel_urls,
}

-- The port that is shown for a tunnel on localhost.
abbrev pub local_tunnel_port : Bytes → Bytes
local_tunnel_port port =
    if port == Constants.tunnel_http_port then Constants.server_http_port else port

abbrev pub local_url : Bytes → Bytes → Bytes
local_url subdomain port = codes "http://" ++ (subdomain ++ (codes ".localhost:" ++ port))

abbrev url_line : Bytes → Bytes → Bytes → Bytes
url_line subdomain port local_port =
    codes ">>>  "
    ++ (local_url subdomain port
        ++ (b' '
            ∷ (color_log_str green (codes "->") ++ (codes " http://localhost:" ++ local_port))))

ports-match :
    (a : ℕ) (port : Bytes) (after : Bytes)
    → digit a ≡ true
    → All (λ c. digit c ≡ true) port
    → match_here (many digit ∷ []) (a ∷ (port ++ b' ' ∷ after)) ≡ some (a ∷ (port ++ []))
ports-match a port after first rest =
    match_here-many digit [] a port b' ' after [] first rest refl (unfold match_here in refl)

-- The URL at the start of a text is what is found there.
url-found :
    (subdomain port after : Bytes)
    → Run host_char subdomain
    → Run digit port
    → match_here tunnel_url_pattern (local_url subdomain port ++ b' ' ∷ after)
      ≡ some (local_url subdomain port)
unfolding host_char
url-found [] port after name number = absurd (name.nonempty refl)
url-found (n ∷ name) [] after of_name number = absurd (number.nonempty refl)
url-found (n ∷ name) (a ∷ port) after of_name number = rw (append_assoc name) (
    match_here-literal (codes "http://") _ _ _ (
      match_here-many host_char _ n name b'.' _ _ of_name.all.0 of_name.all.1 refl (
        match_here-literal (codes ".localhost:") (many digit ∷ []) (a ∷ (port ++ b' ' ∷ after))
          (a ∷ port) (rw append-nil at (ports-match a port after number.all.0 number.all.1)))))

-- The bytes of a name and of a port end no line.
chars-Lacks : (p : ℕ → Bool) (s : Bytes) → p b'\n' ≡ false → All (λ c. p c ≡ true) s → Lacks b'\n' s
chars-Lacks p [] none h = tt
chars-Lacks p (c ∷ s) none h =
    (λ e. absurd (ground (arith, e, h.0, none)), chars-Lacks p s none h.1)

extract-url_line :
    (subdomain port local_port : Bytes)
    → Run host_char subdomain
    → Run digit port
    → extract_tunnel_url (url_line subdomain port local_port) ≡ local_url subdomain port
unfolding extract_tunnel_url
extract-url_line subdomain port local_port name number =
    find_string_skips (eqn b'h') _ (codes ">>>  ")
      (local_url subdomain port
        ++ (b' '
            ∷ (color_log_str green (codes "->") ++ (codes " http://localhost:" ++ local_port))))
      (refl, (refl, (refl, (refl, (refl, tt)))))
    ∙ find_string_start tunnel_url_pattern b'h' _ _ (url-found subdomain port _ name number)

shown_address-local :
    (port : Bytes)
    → shown_address (codes "localhost") port ≡ (codes "http", b':' ∷ local_tunnel_port port)
unfolding shown_address
shown_address-local port = elim (Bool-cases (port == Constants.tunnel_http_port)) [
  | inl usual ↦ ground (arith, usual)
  | inr other ↦ ground (arith, other)
]

log_tunnel_created-created_line :
    (subdomain tunnel_host port local_port : Bytes)
    → (log_tunnel_created subdomain tunnel_host port local_port).1
      ≡ created_line subdomain tunnel_host local_port (shown_address tunnel_host port)
unfolding log_tunnel_created
log_tunnel_created-created_line subdomain tunnel_host port local_port = refl

-- The lines that are logged.
abbrev lines : Bytes → Bytes → Bytes → List Bytes
lines subdomain port local_port =
    color_log_str green (codes "Tunnel created successfully!")
    ∷ []
    ∷ codes "A mmar tunnel is now open on:"
    ∷ []
    ∷ url_line subdomain (local_tunnel_port port) local_port
    ∷ []
    ∷ []
    ∷ []

logged_text :
    (subdomain port local_port : Bytes)
    → (log_tunnel_created subdomain (codes "localhost") port local_port).1
      ≡ join b'\n' (lines subdomain port local_port)
logged_text subdomain port local_port =
    rw (log_tunnel_created-created_line, shown_address-local port)
      (unfold created_line in unfold join in simp append_assoc)

digits-Run : (port : Bytes) → Run digit port → Run digit (local_tunnel_port port)
digits-Run port number = elim (Bool-cases (port == Constants.tunnel_http_port)) [
  | inl usual ↦
      rw usual (record { nonempty = λ e. absurd (cc); all = (refl, (refl, (refl, (refl, tt)))) })
  | inr other ↦ rw other number
]

Run-Lacks : (p : ℕ → Bool) (s : Bytes) → p b'\n' ≡ false → Run p s → Lacks b'\n' s
Run-Lacks p s none run = chars-Lacks p s none run.all

url_line-Lacks :
    (subdomain port local_port : Bytes)
    → Run host_char subdomain
    → Run digit port
    → Lacks b'\n' local_port
    → Lacks b'\n' (url_line subdomain (local_tunnel_port port) local_port)
unfolding color_log_str contains host_char
url_line-Lacks subdomain port local_port name number local =
    append-Lacks b'\n' (codes ">>>  http://") _ (contains-Lacks b'\n' (codes ">>>  http://") refl) (
      rw (append_assoc subdomain) (
        append-Lacks b'\n' subdomain _ (Run-Lacks host_char subdomain refl name) (
          append-Lacks b'\n' (codes ".localhost:") _
            (contains-Lacks b'\n' (codes ".localhost:") refl)
            (append-Lacks b'\n' (local_tunnel_port port) _
              (Run-Lacks digit (local_tunnel_port port) refl (digits-Run port number))
              (append-Lacks b'\n' (b' ' ∷ color_log_str green (codes "->"))
                (codes " http://localhost:" ++ local_port)
                (contains-Lacks b'\n' (b' ' ∷ color_log_str green (codes "->")) refl)
                (append-Lacks b'\n' (codes " http://localhost:") local_port
                  (contains-Lacks b'\n' (codes " http://localhost:") refl) local))))))

lines-Lacks :
    (subdomain port local_port : Bytes)
    → Run host_char subdomain
    → Run digit port
    → Lacks b'\n' local_port
    → All (Lacks b'\n') (lines subdomain port local_port)
unfolding color_log_str contains
lines-Lacks subdomain port local_port name number local = (
  contains-Lacks b'\n' (color_log_str green (codes "Tunnel created successfully!")) refl,
  (
    tt,
    (
      contains-Lacks b'\n' (codes "A mmar tunnel is now open on:") refl,
      (tt, (url_line-Lacks subdomain port local_port name number local, (tt, (tt, tt)))),
    ),
  ),
)

no_url :
    (extract_tunnel_url (color_log_str green (codes "Tunnel created successfully!")) ≡ [])
    × (extract_tunnel_url [] ≡ [])
    × (extract_tunnel_url (codes "A mmar tunnel is now open on:") ≡ [])
unfolding extract_tunnel_url match_here color_log_str
no_url = (refl, refl, refl)

-- Among the lines that a client logs when the server on localhost has made its tunnel, the simulations
-- find one URL: that of the tunnel's name, at the port that users are sent to. The name is of letters,
-- digits and hyphens, the port of digits, and the local port has no newline.
pub tunnel_urls-log_tunnel_created :
    (subdomain port local_port : Bytes)
    → Run host_char subdomain
    → Run digit port
    → Lacks b'\n' local_port
    → tunnel_urls (split b'\n' (log_tunnel_created subdomain (codes "localhost") port local_port).1)
      ≡ local_url subdomain (local_tunnel_port port) ∷ []
unfolding tunnel_urls
tunnel_urls-log_tunnel_created subdomain port local_port name number local =
    rw
      (
        logged_text,
        split-join b'\n' _ _ (lines-Lacks subdomain port local_port name number local),
        extract-url_line subdomain (local_tunnel_port port) local_port name
            (digits-Run port number),
        no_url.0,
        no_url.1,
        no_url.2,
      )
      refl
