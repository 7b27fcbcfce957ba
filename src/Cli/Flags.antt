-- ===== src/Cli/Flags.antt =====
-- Go's `flag`, as cmd/mmar/main.go uses it: a set of flags that are texts, parsed from arguments.
pub mod Printing
use mmar.Prelude.Maps.{Map, lookup, insert}
use mmar.Prelude.{
  Bool, true, false, ◌||◌, Bytes, codes, List, [], ◌∷◌, Option, none, some, eqn, bytes_eq, ◌==◌,
  if◌then◌else◌,
}

-- The flags of a command, with the values that they have.
abbrev pub Flags : Type 0
Flags = Map Bytes Bytes

pub data FlagError : Type 0 where
  bad_flag_syntax : Bytes → FlagError
  not_defined : Bytes → FlagError
  needs_argument : Bytes → FlagError

-- The flags and the arguments behind them; or `flag.ErrHelp`; or an error.
pub data Parsed : Type 0 where
  parsed : Flags → List Bytes → Parsed
  help_asked : Parsed
  failed : FlagError → Parsed

-- An argument where a flag may stand.
pub data Arg : Type 0 where
  not_a_flag : Arg
  terminator : Arg
  malformed : Arg
  flag_named : Bytes → Option Bytes → Arg

-- Up to the first `=`, and what is behind it.
unfoldable pub cut_value : Bytes → Bytes × Option Bytes
cut_value [] = ([], none)
cut_value (c ∷ s) =
    let (name, value) = cut_value s in if eqn c b'=' then ([], some s) else (c ∷ name, value)

-- Behind the dashes; a name has at least one byte in front of an `=`.
unfoldable pub named : Bytes → Arg
named [] = malformed
named (c ∷ s) =
    let (name, value) = cut_value s in
    if eqn c b'-' || eqn c b'=' then malformed else flag_named (c ∷ name) value

behind_two : Bytes → Arg
unfolding named
behind_two [] = terminator
behind_two (c ∷ s) = named (c ∷ s)

unfoldable pub classify : Bytes → Arg
unfolding behind_two
classify [] = not_a_flag
classify (c ∷ []) = not_a_flag
classify (c ∷ d ∷ s) =
    if eqn c b'-' then (if eqn d b'-' then behind_two s else named (d ∷ s)) else not_a_flag

is_help : Bytes → Bool
is_help name = name == codes "help" || name == codes "h"

known : Flags → Bytes → Bool
known flags name = elim (lookup name flags) [ none ↦ false | some value ↦ true ]

undefined : Bytes → Parsed
unfolding is_help
undefined name = if is_help name then help_asked else failed (not_defined name)

-- What a loop over the arguments does: with a flag that waits for its value, or without.
unfoldable pub parse_waiting : Option Bytes → Flags → List Bytes → Parsed
unfolding known undefined
parse_waiting none flags [] = parsed flags []
parse_waiting (some name) flags [] = failed (needs_argument name)
parse_waiting (some name) flags (value ∷ args) = parse_waiting none (insert name value flags) args
parse_waiting none flags (arg ∷ args) = elim (classify arg) [
  | not_a_flag ↦ parsed flags (arg ∷ args)
  | terminator ↦ parsed flags args
  | malformed ↦ failed (bad_flag_syntax arg)
  | flag_named name none ↦ elim (known flags name) [
    | true ↦ parse_waiting (some name) flags args
    | false ↦ undefined name
  ]
  | flag_named name (some value) ↦ elim (known flags name) [
    | true ↦ parse_waiting none (insert name value flags) args
    | false ↦ undefined name
  ]
]

-- `FlagSet.Parse`.
unfoldable pub parse : Flags → List Bytes → Parsed
unfolding parse_waiting
parse flags args = parse_waiting none flags args
