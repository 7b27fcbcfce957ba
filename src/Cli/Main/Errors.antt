-- ===== src/Cli/Main/Errors.antt =====
-- cmd/mmar/main.go: a flag that a command does not have ends the process.
use mathlib.Core.Path.{subst}
use mmar.Cli.Flags.Printing.{
  Setting, written_all, assign, IsName, parse-written_all, last_setting, lookup-assign,
  parse_undefined,
}
use mmar.Cli.Flags.{failed, not_defined, parse}
use mmar.Cli.Main.Precedence.{Declared, settings-IsSetting, server_names, client_names}
use mmar.Cli.Main.{
  Env, FlagSpec, flag_set, server_flags, client_flags, exits, runs_server, runs_client,
  server_config, client_config, after_parse, main,
}
use mmar.Prelude.Maps.{lookup}
use mmar.Prelude.{
  ◌≡◌, ◌≢◌, refl, ap, ◌∙◌, Bytes, codes, List, [], ◌∷◌, ◌++◌, none, arith, bytes_eq, All, inl, inr,
}

flag_set-none :
    (env : Env) (fs : List FlagSpec) (name : Bytes)
    → ¬ Declared fs name
    → lookup name (flag_set env fs) ≡ none
unfolding flag_set lookup
flag_set-none env [] name d = refl
flag_set-none env (f ∷ fs) name d = ground (
  arith,
  flag_set-none env fs name (λ later. d (inr later)),
  bytes_eq.same_iff f.name name,
  (λ (e : f.name ≡ name). d (inl e)),
)

last_setting-none :
    (fs : List FlagSpec) (name : Bytes) (xs : List Setting)
    → All (λ x. Declared fs x.name) xs
    → ¬ Declared fs name
    → last_setting name xs ≡ none
unfolding last_setting
last_setting-none fs name [] h d = refl
last_setting-none fs name (x ∷ xs) h d =
    let differs : x.name ≢ name = λ e. d (subst (Declared fs) e h.0) in
    ground (arith, last_setting-none fs name xs h.1 d, bytes_eq.same_iff x.name name, differs)

parse_settings_undefined :
    (env : Env) (fs : List FlagSpec) (xs : List Setting) (name : Bytes) (args : List Bytes)
    → All (λ f. IsName f.name) fs
    → All (λ x. Declared fs x.name) xs
    → IsName name
    → ¬ Declared fs name
    → name ≢ codes "help"
    → name ≢ codes "h"
    → parse (flag_set env fs) (written_all xs ++ (b'-' ∷ name) ∷ args) ≡ failed (not_defined name)
parse_settings_undefined env fs xs name args names declared h d n1 n2 =
    parse-written_all xs (flag_set env fs) ((b'-' ∷ name) ∷ args)
      (settings-IsSetting env fs xs names declared)
    ∙ parse_undefined name (assign xs (flag_set env fs)) args h
        (rw (lookup-assign, last_setting-none fs name xs declared d) (flag_set-none env fs name d))
        n1 n2

-- Behind any settings of its flags, a flag that `mmar server` does not have ends the process with
-- the code 2, whatever follows; and so for `mmar client`. The names `help` and `h` are left out.
pub undefined_flag_exits :
    (env : Env) (xs ys : List Setting) (name : Bytes) (args : List Bytes)
    → IsName name
    → name ≢ codes "help"
    → name ≢ codes "h"
    → All (λ x. Declared server_flags x.name) xs
    → All (λ x. Declared client_flags x.name) ys
    → ¬ Declared server_flags name
    → ¬ Declared client_flags name
    → (main env (codes "server" ∷ written_all xs ++ (b'-' ∷ name) ∷ args) ≡ exits 2)
      × (main env (codes "client" ∷ written_all ys ++ (b'-' ∷ name) ∷ args) ≡ exits 2)
unfolding main
undefined_flag_exits env xs ys name args h n1 n2 dx dy ns nc = (
  ap (after_parse (λ flags. runs_server (server_config flags)))
      (parse_settings_undefined env server_flags xs name args server_names dx h ns n1 n2),
  ap (after_parse (λ flags. runs_client (client_config flags)))
      (parse_settings_undefined env client_flags ys name args client_names dy h nc n1 n2),
)
