-- ===== src/Cli/Parser.antt =====
-- The argument parser of internal/cli/parser.go. Texts are walked character by character where the
-- source uses the package strings.
use Prim.Native.Char.{code}
use Prim.Native.String.{compare}
use Prim.Native.Nat.{Ordering}
use wemixvisor.Base.{
  ℕ, String, Option, none, some, Bool, true, false, not, ◌&&◌, ◌||◌, List, [], ◌∷◌, ◌++◌, ◌==◌,
  str_eq, is_some, contains, if◌then◌else◌,
}
use wemixvisor.Base.GoMap
use wemixvisor.Base.GoMap.{GoMap}
use wemixvisor.Base.Sort.{sort}
pub mod Commands
pub mod NodeArgs
mod Checks

pub data ParseError : Type 0 where
  no_command : ParseError
  unknown_command invalid_command no_node_args : String → ParseError

pub record ParsedArgs : Type 0 where
  pub command : String
  pub wemixvisor_opts : GoMap String
  pub node_args : List String

-- `strings.HasPrefix s p`
unfoldable pub has_prefix : String → String → Bool
has_prefix s String.[] = true
has_prefix String.[] (String.◌∷◌ d p) = false
has_prefix (String.◌∷◌ c s) (String.◌∷◌ d p) = code c == code d && has_prefix s p

-- `strings.SplitN s "=" 2`: the parts, if there is a `=`
unfoldable pub split_eq : String → Option (String × String)
split_eq String.[] = none
split_eq (String.◌∷◌ c s) =
    let rest = split_eq s in
    if code c == b'='
    then some (String.[], s)
    else elim rest [ none ↦ none | some (a, b) ↦ some (String.◌∷◌ c a, b) ]

abbrev wemixvisor_flags : List String
wemixvisor_flags = "--home" ∷ "--name" ∷ "--network" ∷ "--debug" ∷ "--json" ∷ "--quiet" ∷ []

abbrev flag_name : String → String
flag_name arg = elim (split_eq arg) [ none ↦ arg | some (a, b) ↦ a ]

unfoldable pub is_wemixvisor_flag : String → Bool
is_wemixvisor_flag arg = contains (flag_name arg) wemixvisor_flags

abbrev pub valid_commands : List String
valid_commands = "start" ∷ "stop" ∷ "restart" ∷ "status" ∷ "logs" ∷ "version" ∷ "init" ∷ "run" ∷ []

unfoldable pub is_valid_command : String → Bool
is_valid_command cmd = contains cmd valid_commands

abbrev set_opt : String → String → ParsedArgs → ParsedArgs
set_opt k v p = record p { wemixvisor_opts = GoMap.insert k v p.wemixvisor_opts }

-- An argument that takes the next one for its value.
unfoldable pub takes_value : String → String → Bool
takes_value arg next =
    is_wemixvisor_flag arg && not (is_some (split_eq arg)) && not (has_prefix next "-")

-- An argument on its own: a flag with `=`, a Boolean flag, or one for the node.
unfoldable pub parse_one : String → ParsedArgs → ParsedArgs
parse_one arg p =
    if is_wemixvisor_flag arg
    then elim (split_eq arg) [ none ↦ set_opt arg "true" p | some (a, b) ↦ set_opt a b p ]
    else record p { node_args = p.node_args ++ arg ∷ [] }

-- the loop of `Parse`
unfoldable pub parse_rest : List String → ParsedArgs → ParsedArgs
parse_rest [] p = p
parse_rest (arg ∷ []) p = parse_one arg p
parse_rest (arg ∷ next ∷ rest) p = elim (takes_value arg next) [
  | true ↦ parse_rest rest (set_opt arg next p)
  | false ↦ parse_rest (next ∷ rest) (parse_one arg p)
]

abbrev pub is_nil : List String → Bool
is_nil [] = true
is_nil (x ∷ xs) = false

unfoldable pub validate : ParsedArgs → Option ParseError
validate p =
    if str_eq p.command "start"
    then none
    else if str_eq p.command "stop" || str_eq p.command "status"
    then if is_nil p.node_args then none else some (no_node_args p.command)
    else if contains p.command ("restart" ∷ "logs" ∷ "version" ∷ "init" ∷ "run" ∷ [])
    then none
    else some (invalid_command p.command)

pub data ParseResult : Type 0 where
  ok : ParsedArgs → ParseResult
  err : ParseError → ParseResult

unfoldable pub parse : List String → ParseResult
parse [] = err no_command
parse (cmd ∷ args) =
    let p = parse_rest args (record { command = cmd; wemixvisor_opts = []; node_args = [] }) in
    if is_valid_command cmd
    then elim (validate p) [ none ↦ ok p | some e ↦ err e ]
    else err (unknown_command cmd)

-- the loop of `ExtractGethCompatibleArgs`
unfoldable pub extract_geth_compatible_args : List String → List String
extract_geth_compatible_args [] = []
extract_geth_compatible_args (arg ∷ []) =
    if is_valid_command arg then [] else if is_wemixvisor_flag arg then [] else arg ∷ []
extract_geth_compatible_args (arg ∷ next ∷ rest) =
    let after = extract_geth_compatible_args (next ∷ rest) in
    let skipped = extract_geth_compatible_args rest in
    if is_valid_command arg
    then after
    else if is_wemixvisor_flag arg
    then (if not (is_some (split_eq arg)) && not (has_prefix next "-") then skipped else after)
    else arg ∷ after

unfoldable pub append : String → String → String
append String.[] t = t
append (String.◌∷◌ c s) t = String.◌∷◌ c (append s t)

unfoldable pub contains_flag : List String → String → Bool
contains_flag [] flag = false
contains_flag (arg ∷ args) flag =
    str_eq arg flag || has_prefix arg (append flag "=") || contains_flag args flag

abbrev pub str_less : String → String → Bool
str_less a b = elim (compare a b) [ Ordering.lt ↦ true | _ ↦ false ]

-- the keys of the defaults that the arguments lack
unfoldable pub missing_keys : List String → GoMap String → List String
missing_keys args [] = []
missing_keys args ((k, v) ∷ m) =
    let rest = missing_keys args m in if contains_flag args k then rest else k ∷ rest

-- the arguments for one default
unfoldable pub default_args : GoMap String → String → List String
default_args defaults key = elim (GoMap.lookup key defaults) [
  | none ↦ key ∷ []
  | some value ↦ if str_eq value "" then key ∷ [] else key ∷ value ∷ []
]

unfoldable pub add_defaults : GoMap String → List String → List String → List String
add_defaults defaults args [] = args
add_defaults defaults args (k ∷ ks) = add_defaults defaults (args ++ default_args defaults k) ks

unfoldable pub build_node_args : ParsedArgs → GoMap String → List String
build_node_args p defaults =
    add_defaults defaults p.node_args (sort str_less (missing_keys p.node_args defaults))
