-- ===== src/Utils/Usage.antt =====
-- internal/utils/main.go: the usage texts.
use mmar.Constants.{mmar_subcommands}
use mmar.Prelude.{Bytes, codes, List, [], ◌∷◌, ◌++◌}

-- `strings.Join` with a separator of several bytes.
unfoldable pub join_text : Bytes → List Bytes → Bytes
join_text sep [] = []
join_text sep (p ∷ []) = p
join_text sep (p ∷ q ∷ ps) = p ++ sep ++ join_text sep (q ∷ ps)

unfoldable pub command_lines : List (List Bytes) → Bytes
unfolding join_text
command_lines [] = []
command_lines (subcommand ∷ rest) =
    codes "  " ++ join_text (codes "\n    ") subcommand ++ codes "\n" ++ command_lines rest

abbrev pub mmar_usage : Bytes
mmar_usage =
    codes
      "mmar is an HTTP tunnel that exposes your localhost to the world on a public URL.\n\nUsage:\n  mmar <command> [command flags]\n"
    ++ codes "\nCommands:\n"
    ++ command_lines mmar_subcommands
    ++ codes "\n"
    ++ codes "\n"
    ++ codes "Run `mmar <command> -h` to get help for a specific command\n\n"
