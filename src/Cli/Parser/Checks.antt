-- ===== src/Cli/Parser/Checks.antt =====
-- Tests of the parser, and its theorems at concrete inputs.
use wemixvisor.Base.{◌≡◌, refl, String, List, [], ◌∷◌, str_dec, contains}
use wemixvisor.Base.GoMap
use wemixvisor.Base.GoMap.{GoMap}
use wemixvisor.Base.Sort.{sort}
use wemixvisor.Cli.Parser.{
  ParsedArgs, ok, err, no_node_args, parse, parse_rest, parse_one, takes_value, validate,
  is_valid_command, is_wemixvisor_flag, split_eq, has_prefix, append, extract_geth_compatible_args,
  contains_flag, missing_keys, default_args, add_defaults, build_node_args,
}
use wemixvisor.Cli.Parser.Commands.{start_of}
use wemixvisor.Cli.Parser.NodeArgs.{node_args-parse}

program : Unit {0}
unfolding parse parse_rest parse_one takes_value validate is_valid_command is_wemixvisor_flag
    split_eq has_prefix append extract_geth_compatible_args contains_flag missing_keys default_args
    add_defaults build_node_args contains str_dec sort GoMap.lookup GoMap.insert
program = tt

abbrev words : List String
words = "--home" ∷ "/data" ∷ "--syncmode" ∷ "full" ∷ "--name=wemixd" ∷ "--debug" ∷ "--mine" ∷ []

parsed :
    parse ("start" ∷ words)
    ≡ ok (record {
      command = "start";
      wemixvisor_opts = ("--home", "/data") ∷ ("--name", "wemixd") ∷ ("--debug", "true") ∷ [];
      node_args = "--syncmode" ∷ "full" ∷ "--mine" ∷ [];
    })
unfolding program
parsed = refl

stop_refused : parse ("stop" ∷ "--mine" ∷ []) ≡ err (no_node_args "stop")
unfolding program
stop_refused = refl

node_args-parse_example :
    (parse_rest words (start_of "start")).node_args ≡ extract_geth_compatible_args words
unfolding program
node_args-parse_example =
    node_args-parse "start" words (refl, (refl, (refl, (refl, (refl, (refl, (refl, tt)))))))

abbrev defaults : GoMap String
defaults = ("--http", "") ∷ ("--datadir", "/data") ∷ ("--mine", "") ∷ []

abbrev given : ParsedArgs
given = record { command = "start"; wemixvisor_opts = []; node_args = "--mine" ∷ [] }

built : build_node_args given defaults ≡ "--mine" ∷ "--datadir" ∷ "/data" ∷ "--http" ∷ []
unfolding program
built = refl
