-- ===== src/Cli/Flags/Printing.antt =====
-- Go's `flag`, as cmd/mmar/main.go uses it: arguments that are written for flags are read as meant.
use mmar.Cli.Flags.{
  Flags, flag_named, not_defined, failed, cut_value, named, classify, known, undefined, is_help,
  parse, parse_waiting,
}
use mmar.Prelude.Maps.{lookup, insert, lookup-insert}
use mmar.Prelude.Text.{Lacks}
use mmar.Prelude.{
  ℕ, ◌≡◌, ◌≢◌, refl, ap, ◌∙◌, true, Bytes, codes, List, [], ◌∷◌, ◌++◌, append_assoc, Option, none,
  some, arith, nat_eq, bytes_eq, ◌==◌, All, if◌then◌else◌, inl, inr, Bool-cases,
}

-- How the value of a flag is written: with one dash or two, in an argument of its own or joined.
pub data Spelling : Type 0 where
  one_dash two_dashes one_dash_joined two_dashes_joined : Spelling

pub record Setting : Type 0 where
  pub spelling : Spelling
  pub name : Bytes
  pub value : Bytes

unfoldable pub written : Spelling → Bytes → Bytes → List Bytes
written one_dash name value = (b'-' ∷ name) ∷ value ∷ []
written two_dashes name value = (b'-' ∷ b'-' ∷ name) ∷ value ∷ []
written one_dash_joined name value = (b'-' ∷ name ++ b'=' ∷ value) ∷ []
written two_dashes_joined name value = (b'-' ∷ b'-' ∷ name ++ b'=' ∷ value) ∷ []

unfoldable pub written_all : List Setting → List Bytes
unfolding written
written_all [] = []
written_all (x ∷ xs) = written x.spelling x.name x.value ++ written_all xs

-- The flags after the settings, in their order.
unfoldable pub assign : List Setting → Flags → Flags
assign [] flags = flags
assign (x ∷ xs) flags = assign xs (insert x.name x.value flags)

-- A name that an argument can spell: it has a byte, does not begin with a dash, and has no `=`.
abbrev pub IsName : Bytes → Type 0
IsName [] = ⊥
IsName (c ∷ s) = (c ≢ b'-') × Lacks b'=' (c ∷ s)

abbrev pub Has : Flags → Bytes → Type 0
Has flags name = (value : Bytes) × (lookup name flags ≡ some value)

-- The command has the flag.
pub record IsSetting (flags : Flags) (x : Setting) : Type 0 where
  pub is_name : IsName x.name
  pub has : Has flags x.name

cut_value-none : (s : Bytes) → Lacks b'=' s → cut_value s ≡ (s, none)
unfolding cut_value
cut_value-none [] h = refl
cut_value-none (c ∷ s) h = ground (arith, h.0, cut_value-none s h.1)

cut_value-some : (s v : Bytes) → Lacks b'=' s → cut_value (s ++ b'=' ∷ v) ≡ (s, some v)
unfolding cut_value
cut_value-some [] v h = ground arith
cut_value-some (c ∷ s) v h = ground (arith, h.0, cut_value-some s v h.1)

named_apart : (name : Bytes) → IsName name → named name ≡ flag_named name none
unfolding named
named_apart [] h = absurd h
named_apart (c ∷ s) h = ground (arith, h.0, h.1.0, cut_value-none s h.1.1)

named_joined : (name v : Bytes) → IsName name → named (name ++ b'=' ∷ v) ≡ flag_named name (some v)
unfolding named
named_joined [] v h = absurd h
named_joined (c ∷ s) v h = ground (arith, h.0, h.1.0, cut_value-some s v h.1.1)

classify_one : (s : Bytes) (c : ℕ) → c ≢ b'-' → classify (b'-' ∷ c ∷ s) ≡ named (c ∷ s)
unfolding classify
classify_one s c h = ground (arith, h)

classify_two : (s : Bytes) (c : ℕ) → classify (b'-' ∷ b'-' ∷ c ∷ s) ≡ named (c ∷ s)
unfolding classify
classify_two s c = ground arith

known-Has : (flags : Flags) (name : Bytes) → Has flags name → known flags name ≡ true
unfolding known
known-Has flags name (value, e) = ground (arith, e)

insert-Has :
    (flags : Flags) (name other value : Bytes)
    → Has flags other
    → Has (insert name value flags) other
insert-Has flags name other value (v, e) = elim (Bool-cases (name == other)) [
  | inl same ↦ (value, rw (lookup-insert, same) refl)
  | inr differs ↦ (v, rw (lookup-insert, differs) e)
]

apart :
    (arg name value : Bytes) (flags : Flags) (args : List Bytes)
    → classify arg ≡ flag_named name none
    → known flags name ≡ true
    → parse_waiting none flags (arg ∷ value ∷ args)
      ≡ parse_waiting none (insert name value flags) args
unfolding parse_waiting
apart arg name value flags args h k = ground (arith, h, k)

joined :
    (arg name value : Bytes) (flags : Flags) (args : List Bytes)
    → classify arg ≡ flag_named name (some value)
    → known flags name ≡ true
    → parse_waiting none flags (arg ∷ args) ≡ parse_waiting none (insert name value flags) args
unfolding parse_waiting
joined arg name value flags args h k = ground (arith, h, k)

-- One flag is read with its value, however it is written.
written_step :
    (sp : Spelling) (name value : Bytes) (flags : Flags) (args : List Bytes)
    → IsName name
    → known flags name ≡ true
    → parse_waiting none flags (written sp name value ++ args)
      ≡ parse_waiting none (insert name value flags) args
unfolding written
written_step sp [] value flags args h k = absurd h
written_step one_dash (c ∷ s) value flags args h k =
    apart _ (c ∷ s) value flags args (classify_one s c h.0 ∙ named_apart (c ∷ s) h) k
written_step two_dashes (c ∷ s) value flags args h k =
    apart _ (c ∷ s) value flags args (classify_two s c ∙ named_apart (c ∷ s) h) k
written_step one_dash_joined (c ∷ s) value flags args h k =
    joined _ (c ∷ s) value flags args (classify_one _ c h.0 ∙ named_joined (c ∷ s) value h) k
written_step two_dashes_joined (c ∷ s) value flags args h k =
    joined _ (c ∷ s) value flags args (classify_two _ c ∙ named_joined (c ∷ s) value h) k

IsSetting-insert :
    (flags : Flags) (name value : Bytes) (xs : List Setting)
    → All (IsSetting flags) xs
    → All (IsSetting (insert name value flags)) xs
IsSetting-insert flags name value [] h = tt
IsSetting-insert flags name value (x ∷ xs) h = (
  record { is_name = h.0.is_name; has = insert-Has flags name x.name value h.0.has },
  IsSetting-insert flags name value xs h.1,
)

-- Arguments that spell settings of flags that the command has are read as those settings, in their
-- order, and what follows is parsed with them.
pub parse-written_all :
    (xs : List Setting) (flags : Flags) (args : List Bytes)
    → All (IsSetting flags) xs
    → parse flags (written_all xs ++ args) ≡ parse (assign xs flags) args
unfolding parse written_all assign
parse-written_all [] flags args h = refl
parse-written_all (x ∷ xs) flags args h =
    ap (parse_waiting none flags)
      (append_assoc (written x.spelling x.name x.value) (written_all xs) args)
    ∙ (written_step x.spelling x.name x.value flags (written_all xs ++ args) h.0.is_name
          (known-Has flags x.name h.0.has)
        ∙ parse-written_all xs (insert x.name x.value flags) args
            (IsSetting-insert flags x.name x.value xs h.1))

-- The value that the last of the settings of a name gives it.
unfoldable pub last_setting : Bytes → List Setting → Option Bytes
last_setting name [] = none
last_setting name (x ∷ xs) = elim (last_setting name xs) [
  | some value ↦ some value
  | none ↦ if x.name == name then some x.value else none
]

abbrev pub or_else : Option Bytes → Option Bytes → Option Bytes
or_else (some value) other = some value
or_else none other = other

-- A flag has the value of its last setting, or keeps the one it had.
pub lookup-assign :
    (name : Bytes) (xs : List Setting) (flags : Flags)
    → lookup name (assign xs flags) ≡ or_else (last_setting name xs) (lookup name flags)
unfolding assign last_setting
lookup-assign name [] flags = refl
lookup-assign name (x ∷ xs) flags = ground (
  arith,
  lookup-assign name xs (insert x.name x.value flags),
  lookup-insert x.name name x.value flags,
)

-- A flag that the command does not have.
pub parse_undefined :
    (name : Bytes) (flags : Flags) (args : List Bytes)
    → IsName name
    → lookup name flags ≡ none
    → name ≢ codes "help"
    → name ≢ codes "h"
    → parse flags ((b'-' ∷ name) ∷ args) ≡ failed (not_defined name)
unfolding parse parse_waiting known undefined is_help
parse_undefined [] flags args h absent n1 n2 = absurd h
parse_undefined (c ∷ s) flags args h absent n1 n2 =
    let read = classify_one s c h.0 ∙ named_apart (c ∷ s) h in
    ground (
      arith,
      read,
      absent,
      n1,
      n2,
      bytes_eq.same_iff (c ∷ s) (codes "help"),
      bytes_eq.same_iff (c ∷ s) (codes "h"),
    )
