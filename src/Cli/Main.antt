-- ===== src/Cli/Main.antt =====
-- cmd/mmar/main.go: the command line, with what it uses of Go's `flag` for flags that are texts. The
-- environment is a function from names; the help that `flag` prints before it exits is left out.
pub mod Precedence
pub mod Errors
use mmar.Client
use mmar.Cli.Flags.{Flags, Parsed, parsed, help_asked, failed, parse}
use mmar.Constants
use mmar.Prelude.Maps.{lookup}
use mmar.Prelude.{
  ℕ, Bytes, codes, List, [], ◌∷◌, ◌++◌, Option, none, some, bytes_eq, ◌==◌, if◌then◌else◌,
}
use mmar.Server.Start
use mmar.Utils.Usage.{mmar_usage}
use mmar.Utils.{env_var_or_default}

abbrev pub Env : Type 0
Env = Bytes → Option Bytes

-- A flag of a command: its name, the variable that gives its default, and the default without one.
pub record FlagSpec : Type 0 where
  pub name : Bytes
  pub env_var : Bytes
  pub fallback : Bytes

abbrev flag : Bytes → Bytes → Bytes → FlagSpec
flag name env_var fallback = record { name = name; env_var = env_var; fallback = fallback }

-- `flag.FlagSet.String` for each flag, in the environment.
unfoldable pub flag_set : Env → List FlagSpec → Flags
flag_set env [] = []
flag_set env (f ∷ fs) = (f.name, env_var_or_default (env f.env_var) f.fallback) ∷ flag_set env fs

abbrev pub server_flags : List FlagSpec
server_flags =
    flag (codes "http-port") Constants.mmar_env_var_server_http_port Constants.server_http_port
    ∷ flag (codes "tcp-port") Constants.mmar_env_var_server_tcp_port Constants.server_tcp_port
    ∷ flag (codes "api-keys-file") Constants.mmar_env_var_api_keys_file (codes "api-keys.json")
    ∷ []

abbrev pub client_flags : List FlagSpec
client_flags =
    flag (codes "local-port") Constants.mmar_env_var_local_port Constants.client_local_port
    ∷ flag (codes "tunnel-http-port") Constants.mmar_env_var_tunnel_http_port
        Constants.tunnel_http_port
    ∷ flag (codes "tunnel-tcp-port") Constants.mmar_env_var_tunnel_tcp_port
        Constants.server_tcp_port
    ∷ flag (codes "tunnel-host") Constants.mmar_env_var_tunnel_host Constants.tunnel_host
    ∷ flag (codes "custom-dns") Constants.mmar_env_var_custom_dns []
    ∷ flag (codes "custom-cert") Constants.mmar_env_var_custom_cert []
    ∷ flag (codes "custom-name") Constants.mmar_env_var_custom_name []
    ∷ flag (codes "api-key") Constants.mmar_env_var_api_key []
    ∷ []

-- What the process does.
pub data Started : Type 0 where
  prints : Bytes → Started
  exits : ℕ → Started
  runs_server : Start.ConfigOptions → Started
  runs_client : Client.ConfigOptions → Started

text_of : Option Bytes → Bytes
text_of none = []
text_of (some value) = value

-- The value of a flag that the command has.
unfoldable pub value_of : Bytes → Flags → Bytes
unfolding text_of
value_of name flags = text_of (lookup name flags)

abbrev pub server_config : Flags → Start.ConfigOptions
server_config flags = record {
  http_port = value_of (codes "http-port") flags;
  tcp_port = value_of (codes "tcp-port") flags;
  api_keys_file = value_of (codes "api-keys-file") flags;
}

abbrev pub client_config : Flags → Client.ConfigOptions
client_config flags = record {
  local_port = value_of (codes "local-port") flags;
  tunnel_http_port = value_of (codes "tunnel-http-port") flags;
  tunnel_tcp_port = value_of (codes "tunnel-tcp-port") flags;
  tunnel_host = value_of (codes "tunnel-host") flags;
  custom_dns = value_of (codes "custom-dns") flags;
  custom_cert = value_of (codes "custom-cert") flags;
  custom_name = value_of (codes "custom-name") flags;
  api_key = value_of (codes "api-key") flags;
}

-- `flag.ExitOnError`.
abbrev pub after_parse : (Flags → Started) → Parsed → Started
after_parse run (parsed flags rest) = run flags
after_parse run help_asked = exits 0
after_parse run (failed why) = exits 2

-- The arguments behind the program's name.
unfoldable pub main : Env → List Bytes → Started
main env [] = prints mmar_usage
main env (command ∷ args) =
    if command == Constants.server_cmd
    then after_parse (λ flags. runs_server (server_config flags))
        (parse (flag_set env server_flags) args)
    else if command == Constants.client_cmd
    then after_parse (λ flags. runs_client (client_config flags))
        (parse (flag_set env client_flags) args)
    else if command == Constants.version_cmd
    then after_parse
        (λ flags. prints (codes "mmar version " ++ Constants.mmar_version ++ codes "\n"))
        (parse [] args)
    else prints mmar_usage
