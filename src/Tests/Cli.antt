-- ===== src/Tests/Cli.antt =====
-- cmd/mmar/main.go: command lines.
use mmar.Cli.Flags.{parse}
use mmar.Cli.Flags.Printing.{Setting, one_dash, two_dashes_joined, written_all, last_setting}
use mmar.Cli.Main.Errors.{undefined_flag_exits}
use mmar.Cli.Main.Precedence.{client_precedence}
use mmar.Cli.Main.{Env, exits, prints, runs_client, main}
use mmar.Prelude.{
  ◌≡◌, ◌≢◌, refl, arith, codes, List, [], ◌∷◌, ◌++◌, none, some, inl, inr, bytes_eq, ◌==◌,
  if◌then◌else◌,
}

abbrev env : Env
env name = if name == codes "MMAR__TUNNEL_HOST" then some (codes "example.org") else none

abbrev ports : List Setting
ports =
    record { spelling = one_dash; name = codes "http-port"; value = codes "80" }
    ∷ record { spelling = two_dashes_joined; name = codes "http-port"; value = codes "81" }
    ∷ []

abbrev tunnel : List Setting
tunnel =
    record { spelling = two_dashes_joined; name = codes "custom-name"; value = codes "abc" }
    ∷ record { spelling = one_dash; name = codes "api-key"; value = codes "-k" }
    ∷ []

main_test : main env (codes "version" ∷ []) ≡ prints (codes "mmar version 0.2.6\n")
unfolding main parse
main_test = refl

client_precedence_example :
    main env (codes "client" ∷ codes "--custom-name=abc" ∷ codes "-api-key" ∷ codes "-k" ∷ [])
    ≡ runs_client (record {
      local_port = codes "8000";
      tunnel_http_port = codes "443";
      tunnel_tcp_port = codes "6673";
      tunnel_host = codes "example.org";
      custom_dns = [];
      custom_cert = [];
      custom_name = codes "abc";
      api_key = codes "-k";
    })
unfolding written_all last_setting
client_precedence_example = client_precedence env tunnel (
  inr (inr (inr (inr (inr (inr (inl refl)))))),
  (inr (inr (inr (inr (inr (inr (inr (inl refl))))))), tt),
)

differs : codes "port" ≢ codes "help"
differs e = ground (arith, e)

undefined_flag_exits_test :
    (main env (codes "server" ∷ written_all ports ++ codes "-port" ∷ codes "1" ∷ []) ≡ exits 2)
    × (main env (codes "client" ∷ written_all tunnel ++ codes "-port" ∷ codes "1" ∷ []) ≡ exits 2)
undefined_flag_exits_test =
    undefined_flag_exits env ports tunnel (codes "port") (codes "1" ∷ []) (ground arith) differs
      (λ e. ground (arith, e)) (inl refl, (inl refl, tt))
      (
        inr (inr (inr (inr (inr (inr (inl refl)))))),
        (inr (inr (inr (inr (inr (inr (inr (inl refl))))))), tt),
      )
      (λ d. ground (arith, d)) (λ d. ground (arith, d))
