-- ===== src/Cli/Parser/Commands.antt =====
-- Which command lines are accepted.
use wemixvisor.Base.{
  ◌≡◌, ◌≢◌, refl, String, none, some, Bool, true, List, [], ◌∷◌, arith, Bool-cases, inl, inr,
  contains, str_eq, ◌||◌, if◌then◌else◌,
}
use wemixvisor.Base.GoMap
use text.Mathlib.TextEquality.{eq_iff}
use wemixvisor.Cli.Parser.{
  ParsedArgs, ok, err, unknown_command, no_node_args, parse, parse_rest, parse_one, validate,
  is_valid_command, valid_commands, is_nil,
}

abbrev pub start_of : String → ParsedArgs
start_of cmd = record { command = cmd; wemixvisor_opts = []; node_args = [] }

command-parse_one : (arg : String) (p : ParsedArgs) → (parse_one arg p).command ≡ p.command
unfolding parse_one
command-parse_one arg p = ground arith

command-parse_rest : (args : List String) (p : ParsedArgs) → (parse_rest args p).command ≡ p.command
unfolding parse_rest
command-parse_rest [] p = refl
command-parse_rest (arg ∷ []) p = command-parse_one arg p
command-parse_rest (arg ∷ next ∷ rest) p = ground (
  arith,
  command-parse_rest rest (record p { wemixvisor_opts = GoMap.insert arg next p.wemixvisor_opts }),
  command-parse_rest (next ∷ rest) (parse_one arg p),
  command-parse_one arg p,
)

start-ne-stop : ◌≢◌ {A = String} "start" "stop"
start-ne-stop = ground (arith, eq_iff "start" "stop")

start-ne-status : ◌≢◌ {A = String} "start" "status"
start-ne-status = ground (arith, eq_iff "start" "status")

abbrev pub rejects_node_args : String → Bool
rejects_node_args cmd = str_eq cmd "stop" || str_eq cmd "status"

validate_valid :
    (p : ParsedArgs)
    → contains p.command valid_commands ≡ true
    → validate p ≡ (
        if rejects_node_args p.command
        then (if is_nil p.node_args then none else some (no_node_args p.command))
        else none)
unfolding validate contains
validate_valid p v = ground (arith, start-ne-stop, start-ne-status)

-- What the parser answers, for every command line with a command. An unknown command is refused;
-- stop and status are refused if an argument is left for the node; anything else is accepted with
-- the options and the node arguments that were read. The default case of the validation is never
-- reached.
pub parse-cases :
    (cmd : String) (args : List String)
    → let p = parse_rest args (start_of cmd) in
      parse (cmd ∷ args) ≡ (
        if is_valid_command cmd
        then (if rejects_node_args cmd
            then (if is_nil p.node_args then ok p else err (no_node_args cmd))
            else ok p)
        else err (unknown_command cmd))
unfolding parse is_valid_command
parse-cases cmd args =
    let p = parse_rest args (start_of cmd) in
    let c = command-parse_rest args (start_of cmd) in
    elim (Bool-cases (contains cmd valid_commands)) [
      | inl v ↦ rw (v, validate_valid p (rw c v), c) (ground arith)
      | inr v ↦ rw v
    ]
