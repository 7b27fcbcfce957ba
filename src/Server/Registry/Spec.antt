-- ===== src/Server/Registry/Spec.antt =====
-- internal/server/main.go: what `newClientTunnel` does, in every case.
use mmar.Server.Registry.Tables.{
  SameTables, Recorded, SameTables-trans, send_on-SameTables, send_error-SameTables,
  with_shared-SameTables, tunnel_limited_ip-SameTables, fresh_channels, send_error-shareds,
  tunnel_limited_ip-shareds, record_tunnel-Recorded, Recorded-SameTables, close-SameTables,
}
use mmar.Auth.{AuthManager}
use mmar.Constants.{max_tunnels_per_ip}
use mmar.Prelude.Io.{Error}
use mmar.Prelude.{
  ℕ, ◌<◌, ◌≤◌, ◌≡◌, refl, Bool, true, false, Bytes, Option, none, some, arith, length, bytes_eq,
  ◌⊎◌, inl, inr, Bool-cases,
}
use mmar.Protocol.Conn.{Tunnel}
use mmar.Protocol.Types
use mmar.Server.Registry.{
  Refusal, no_subdomain_drawn, client_max_tunnels_reached, unique_subdomain_not_sent, Creation,
  created, refused, send_error_and_close_write, authenticate, Choice, chosen, turned_down, undrawn,
  choose_subdomain, tunnels_at, ip_of, tunnel_limited_ip, record_tunnel, limit_reached, announce,
  register, by_choice, by_token, new_client_tunnel, with_shared, announced, tunnel_made,
}
use mmar.Server.Registry.Tokens.{Admits, authenticate-Admits, Admits-authenticate}
use mmar.Server.State.{ClientTunnel, MmarServer, Running, running}

-- Why a tunnel is not made: the token or the name is turned down, no name can be drawn, or the
-- address has as many tunnels as it may.
pub data Declined (draws : ℕ → ℕ → ℕ) (t : Tunnel) (subdomain token : Bytes) (s : MmarServer)
    : Refusal → Type 0 where
  bad_token :
      (msg_type : ℕ) (why : Refusal)
      → authenticate s.auth_manager token ≡ some (msg_type, why)
      → (Admits s.auth_manager token → ⊥)
      → Declined draws t subdomain token s why
  bad_name :
      (msg_type : ℕ) (why : Refusal)
      → authenticate s.auth_manager token ≡ none
      → choose_subdomain s.clients draws subdomain ≡ turned_down msg_type why
      → Declined draws t subdomain token s why
  no_name :
      authenticate s.auth_manager token ≡ none
      → choose_subdomain s.clients draws subdomain ≡ undrawn
      → Declined draws t subdomain token s no_subdomain_drawn
  full :
      (name : Bytes)
      → authenticate s.auth_manager token ≡ none
      → choose_subdomain s.clients draws subdomain ≡ chosen name
      → max_tunnels_per_ip ≤ length (tunnels_at s (ip_of s t.conn))
      → Declined draws t subdomain token s client_max_tunnels_reached

-- What a request for a tunnel ends in.
pub data Made (draws : ℕ → ℕ → ℕ) (t : Tunnel) (subdomain token : Bytes) (s : MmarServer)
    (r : Running (Creation × MmarServer)) : Type 0 where
  unchanged :
      (why : Refusal) (s' : MmarServer)
      → r ≡ running (refused why, s')
      → Declined draws t subdomain token s why
      → SameTables s s'
      → Made draws t subdomain token s r
  recorded :
      (ct : ClientTunnel) (c : Creation) (s' : MmarServer)
      → r ≡ running (c, s')
      → (c ≡ created ct) ⊎ (c ≡ refused unique_subdomain_not_sent)
      → authenticate s.auth_manager token ≡ none
      → Admits s.auth_manager token
      → choose_subdomain s.clients draws subdomain ≡ chosen ct.id
      → ct.auth_token ≡ token
      → ct.conn ≡ t.conn
      → Recorded ct s s'
      → Made draws t subdomain token s r

announced-cases :
    (ct : ClientTunnel) (r : Option Error × MmarServer)
    → ((announced ct r).0 ≡ created ct) ⊎ ((announced ct r).0 ≡ refused unique_subdomain_not_sent)
unfolding announced
announced-cases ct (none, s) = inl refl
announced-cases ct (some e, s) = inr refl

announced-state : (ct : ClientTunnel) (r : Option Error × MmarServer) → (announced ct r).1 ≡ r.1
unfolding announced
announced-state ct (none, s) = refl
announced-state ct (some e, s) = refl

limit_reached-cases :
    (ct : ClientTunnel) (s : MmarServer)
    → (s.shareds ct.shared).channels_closed ≡ false
    → (s' : MmarServer) × (limit_reached ct s ≡ running (refused client_max_tunnels_reached, s'))
      × SameTables s s'
unfolding limit_reached
limit_reached-cases ct s still_open =
    let q = send_error_and_close_write Types.client_tunnel_limit ct.conn s in
    let (s', e, same) =
      close-SameTables ct q
        (rw (send_error-shareds Types.client_tunnel_limit ct.conn ct.shared s) still_open) in
    (s', rw (e, limit_reached), SameTables-trans (send_error-SameTables _ _ s) same)

-- With the name settled, either the address has no room, and nothing is counted, or the tunnel is.
register-cases :
    (t : Tunnel) (name token : Bytes) (s : MmarServer)
    → (c : Creation) × (s' : MmarServer) × (register t name token s ≡ running (c, s'))
      × (((c ≡ refused client_max_tunnels_reached)
            × (max_tunnels_per_ip ≤ length (tunnels_at s (ip_of s t.conn)))
            × SameTables s s')
          ⊎ (((c ≡ created (tunnel_made t name token s)) ⊎ (c ≡ refused unique_subdomain_not_sent))
              × Recorded (tunnel_made t name token s) s s'))
unfolding register
register-cases t name token s = elim (Bool-cases limited) [
  | inl over ↦
      let (s', e, same) =
        limit_reached-cases ct q
          (rw (tunnel_limited_ip-shareds (with_shared s) ip s.next_shared) (fresh_channels s)) in
      (
        refused client_max_tunnels_reached,
        s',
        rw over e,
        inl (refl, big over, SameTables-trans before same),
      )
  | inr room ↦ (
    (announce ct (record_tunnel ct ip q)).0,
    (announce ct (record_tunnel ct ip q)).1,
    rw room,
    inr (
      unfold announce in announced-cases ct _,
      Recorded-SameTables (record_tunnel-Recorded ct s q before (small room))
          (unfold announce in rw (announced-state ct _) (send_on-SameTables _ _ _)),
    ),
  )
]
  where
    ct : ClientTunnel
    ct = tunnel_made t name token s

    ip : Bytes
    ip = ip_of s t.conn

    limited : Bool
    limited = (tunnel_limited_ip (with_shared s) ip).0

    q : MmarServer
    q = (tunnel_limited_ip (with_shared s) ip).1

    before : SameTables s q
    before =
        SameTables-trans (with_shared-SameTables s)
          (tunnel_limited_ip-SameTables (with_shared s) ip)

    small : limited ≡ false → length (tunnels_at s ip) < max_tunnels_per_ip
    small room = unfold tunnel_limited_ip with_shared in ground arith

    big : limited ≡ true → max_tunnels_per_ip ≤ length (tunnels_at s ip)
    big over = unfold tunnel_limited_ip with_shared in ground arith

by_choice-Made :
    (draws : ℕ → ℕ → ℕ) (t : Tunnel) (subdomain token : Bytes) (s : MmarServer) (ch : Choice)
    → choose_subdomain s.clients draws subdomain ≡ ch
    → authenticate s.auth_manager token ≡ none
    → Made draws t subdomain token s (by_choice t token s ch)
unfolding by_choice
by_choice-Made draws t subdomain token s (chosen name) picked passed =
    let (c, s', e, cases) = register-cases t name token s in
    elim cases [
      | inl (answer, many, same) ↦
          unchanged client_max_tunnels_reached s' (rw answer at e) (full name passed picked many)
            same
      | inr (result, entered) ↦
          recorded (tunnel_made t name token s) c s' e result passed
            (authenticate-Admits s.auth_manager token passed) picked refl refl entered
    ]
by_choice-Made draws t subdomain token s (turned_down msg_type why) picked passed =
    unchanged why (send_error_and_close_write msg_type t.conn s) refl
      (bad_name msg_type why passed picked) (send_error-SameTables msg_type t.conn s)
by_choice-Made draws t subdomain token s undrawn picked passed =
    unchanged no_subdomain_drawn s refl (no_name passed picked)
      (record { clients = refl; per_ip = λ ip. refl; auth = refl; ips = λ c. refl })

turned_away :
    (o : Option AuthManager) (token : Bytes) (msg_type : ℕ) (why : Refusal)
    → authenticate o token ≡ some (msg_type, why)
    → Admits o token
    → ⊥
turned_away o token msg_type why failed may =
    let passed = Admits-authenticate o token may in absurd (cc)

by_token-Made :
    (draws : ℕ → ℕ → ℕ) (t : Tunnel) (subdomain token : Bytes) (s : MmarServer)
    (verdict : Option (ℕ × Refusal))
    → authenticate s.auth_manager token ≡ verdict
    → Made draws t subdomain token s (by_token draws t subdomain token s verdict)
unfolding by_token
by_token-Made draws t subdomain token s none passed =
    by_choice-Made draws t subdomain token s (choose_subdomain s.clients draws subdomain) refl
      passed
by_token-Made draws t subdomain token s (some (msg_type, why)) failed =
    unchanged why (send_error_and_close_write msg_type t.conn s) refl
      (bad_token msg_type why failed (turned_away s.auth_manager token msg_type why failed))
      (send_error-SameTables msg_type t.conn s)

new_client_tunnel_lem :
    (draws : ℕ → ℕ → ℕ) (t : Tunnel) (subdomain token : Bytes) (s : MmarServer)
    → new_client_tunnel draws t subdomain token s
      ≡ by_token draws t subdomain token s (authenticate s.auth_manager token)
unfolding new_client_tunnel
new_client_tunnel_lem draws t subdomain token s = refl

-- A request for a tunnel never crashes the server. Either it is refused, for its token, for its
-- name, since none can be drawn or since its address is full, and every table that counts tunnels
-- is as it was; or one tunnel enters the clients and the list of its address, and the list of its
-- token if there are an auth manager and a token, with every other list as it was: its token is
-- admitted, its name is the one that was chosen, its address had room, and all that can still fail
-- is the reply. A token is turned down exactly if it is not admitted: with an auth manager those are
-- admitted that its table lists and that have fewer tunnels than it allows them, without one the
-- empty token.
pub new_client_tunnel-Made :
    (draws : ℕ → ℕ → ℕ) (t : Tunnel) (subdomain token : Bytes) (s : MmarServer)
    → Made draws t subdomain token s (new_client_tunnel draws t subdomain token s)
new_client_tunnel-Made draws t subdomain token s =
    rw new_client_tunnel_lem (by_token-Made draws t subdomain token s _ refl)
