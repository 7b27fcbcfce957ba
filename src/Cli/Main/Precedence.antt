-- ===== src/Cli/Main/Precedence.antt =====
-- cmd/mmar/main.go: a flag on the command line comes before the environment, and the environment
-- before the default.
use mathlib.Core.Path.{subst}
use mmar.Cli.Flags.Printing.{
  Setting, written_all, assign, IsName, Has, IsSetting, parse-written_all, last_setting,
  lookup-assign,
}
use mmar.Cli.Flags.{parsed, parse, parse_waiting}
use mmar.Cli.Main.{
  Env, FlagSpec, flag_set, server_flags, client_flags, runs_client, value_of, client_config,
  after_parse, main,
}
use mmar.Client
use mmar.Prelude.Maps.{lookup}
use mmar.Prelude.{
  ◌≡◌, refl, ap, sym, ◌∙◌, Bytes, codes, List, [], ◌∷◌, append-nil, Option, none, some, arith,
  bytes_eq, ◌==◌, All, ◌⊎◌, inl, inr, Bool-cases,
}
use mmar.Server.Start
use mmar.Utils.{env_var_or_default}

abbrev pub or_text : Option Bytes → Bytes → Bytes
or_text (some value) other = value
or_text none other = other

-- The value that a flag must have: its last setting, or the variable's, or the default.
abbrev pub chosen : Env → List Setting → Bytes → Bytes → Bytes → Bytes
chosen env xs name env_var fallback =
    or_text (last_setting name xs) (or_text (env env_var) fallback)

abbrev pub Declared : List FlagSpec → Bytes → Type 0
Declared [] name = ⊥
Declared (f ∷ fs) name = (f.name ≡ name) ⊎ Declared fs name

Declared-Has :
    (env : Env) (fs : List FlagSpec) (name : Bytes) → Declared fs name → Has (flag_set env fs) name
unfolding flag_set lookup
Declared-Has env [] name d = absurd d
Declared-Has env (f ∷ fs) name d = elim (Bool-cases (f.name == name)) [
  | inl same ↦ (env_var_or_default (env f.env_var) f.fallback, ground (arith, same))
  | inr other ↦ elim d [
    | inl this ↦ absurd (ground (arith, this, other, bytes_eq.same_iff f.name name))
    | inr later ↦
        let (value, e) = Declared-Has env fs name later in (value, ground (arith, other, e))
  ]
]

Declared-IsName :
    (fs : List FlagSpec) (name : Bytes)
    → All (λ f. IsName f.name) fs
    → Declared fs name
    → IsName name
Declared-IsName [] name h d = absurd d
Declared-IsName (f ∷ fs) name h (inl this) = subst IsName this h.0
Declared-IsName (f ∷ fs) name h (inr later) = Declared-IsName fs name h.1 later

pub settings-IsSetting :
    (env : Env) (fs : List FlagSpec) (xs : List Setting)
    → All (λ f. IsName f.name) fs
    → All (λ x. Declared fs x.name) xs
    → All (IsSetting (flag_set env fs)) xs
settings-IsSetting env fs [] h d = tt
settings-IsSetting env fs (x ∷ xs) h d = (
  record { is_name = Declared-IsName fs x.name h d.0; has = Declared-Has env fs x.name d.0 },
  settings-IsSetting env fs xs h d.1,
)

-- What is parsed of settings that a command's flags allow.
parse_settings :
    (env : Env) (fs : List FlagSpec) (xs : List Setting)
    → All (λ f. IsName f.name) fs
    → All (λ x. Declared fs x.name) xs
    → parse (flag_set env fs) (written_all xs) ≡ parsed (assign xs (flag_set env fs)) []
unfolding parse parse_waiting
parse_settings env fs xs h d =
    ap (parse (flag_set env fs)) (sym (append-nil (written_all xs)))
    ∙ parse-written_all xs (flag_set env fs) [] (settings-IsSetting env fs xs h d)

value-chosen :
    (env : Env) (fs : List FlagSpec) (xs : List Setting) (f : FlagSpec)
    → lookup f.name (flag_set env fs) ≡ some (env_var_or_default (env f.env_var) f.fallback)
    → value_of f.name (assign xs (flag_set env fs)) ≡ chosen env xs f.name f.env_var f.fallback
unfolding value_of env_var_or_default
value-chosen env fs xs f e = ground (arith, lookup-assign f.name xs (flag_set env fs), e)

pub client_names : All (λ f. IsName f.name) client_flags
client_names = ground arith

pub server_names : All (λ f. IsName f.name) server_flags
server_names = ground arith

-- The configuration that the rule gives.
abbrev pub server_chosen : Env → List Setting → Start.ConfigOptions
server_chosen env xs = record {
  http_port = chosen env xs (codes "http-port") (codes "MMAR__SERVER_HTTP_PORT") (codes "3376");
  tcp_port = chosen env xs (codes "tcp-port") (codes "MMAR__SERVER_TCP_PORT") (codes "6673");
  api_keys_file =
      chosen env xs (codes "api-keys-file") (codes "MMAR__API_KEYS_FILE") (codes "api-keys.json");
}

abbrev pub client_chosen : Env → List Setting → Client.ConfigOptions
client_chosen env xs = record {
  local_port = chosen env xs (codes "local-port") (codes "MMAR__LOCAL_PORT") (codes "8000");
  tunnel_http_port =
      chosen env xs (codes "tunnel-http-port") (codes "MMAR__TUNNEL_HTTP_PORT") (codes "443");
  tunnel_tcp_port =
      chosen env xs (codes "tunnel-tcp-port") (codes "MMAR__TUNNEL_TCP_PORT") (codes "6673");
  tunnel_host = chosen env xs (codes "tunnel-host") (codes "MMAR__TUNNEL_HOST") (codes "mmar.dev");
  custom_dns = chosen env xs (codes "custom-dns") (codes "MMAR__CUSTOM_DNS") ([]);
  custom_cert = chosen env xs (codes "custom-cert") (codes "MMAR__CUSTOM_CERT") ([]);
  custom_name = chosen env xs (codes "custom-name") (codes "MMAR__CUSTOM_NAME") ([]);
  api_key = chosen env xs (codes "api-key") (codes "MMAR__API_KEY") ([]);
}

client_config-chosen :
    (env : Env) (xs : List Setting)
    → client_config (assign xs (flag_set env client_flags)) ≡ client_chosen env xs
unfolding flag_set lookup
client_config-chosen env xs = ground (
  arith,
  value-chosen env client_flags xs
      (record {
        name = codes "local-port";
        env_var = codes "MMAR__LOCAL_PORT";
        fallback = codes "8000";
      })
      refl,
  value-chosen env client_flags xs
      (record {
        name = codes "tunnel-http-port";
        env_var = codes "MMAR__TUNNEL_HTTP_PORT";
        fallback = codes "443";
      })
      refl,
  value-chosen env client_flags xs
      (record {
        name = codes "tunnel-tcp-port";
        env_var = codes "MMAR__TUNNEL_TCP_PORT";
        fallback = codes "6673";
      })
      refl,
  value-chosen env client_flags xs
      (record {
        name = codes "tunnel-host";
        env_var = codes "MMAR__TUNNEL_HOST";
        fallback = codes "mmar.dev";
      })
      refl,
  value-chosen env client_flags xs
      (record { name = codes "custom-dns"; env_var = codes "MMAR__CUSTOM_DNS"; fallback = [] })
      refl,
  value-chosen env client_flags xs
      (record { name = codes "custom-cert"; env_var = codes "MMAR__CUSTOM_CERT"; fallback = [] })
      refl,
  value-chosen env client_flags xs
      (record { name = codes "custom-name"; env_var = codes "MMAR__CUSTOM_NAME"; fallback = [] })
      refl,
  value-chosen env client_flags xs
      (record { name = codes "api-key"; env_var = codes "MMAR__API_KEY"; fallback = [] }) refl,
)

-- `mmar client`, with any settings of its flags, in any spelling and order: each value is the last one
-- set for its flag, or else the environment's, or else the default.
pub client_precedence :
    (env : Env) (xs : List Setting)
    → All (λ x. Declared client_flags x.name) xs
    → main env (codes "client" ∷ written_all xs) ≡ runs_client (client_chosen env xs)
unfolding main
client_precedence env xs d =
    ap (after_parse (λ flags. runs_client (client_config flags)))
      (parse_settings env client_flags xs client_names d)
    ∙ ap runs_client (client_config-chosen env xs)
