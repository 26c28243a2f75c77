-- ===== src/Cli/Parser/NodeArgs.antt =====
-- The arguments that reach the node.
use mathlib.Core.List.{append_assoc, append-nil}
use wemixvisor.Base.{
  ◌≡◌, refl, sym, ap, String, true, false, List, [], ◌∷◌, ◌++◌, All, In, arith, Bool-cases, inl,
  inr, if◌then◌else◌,
}
use wemixvisor.Base.GoMap
use wemixvisor.Base.GoMap.{GoMap}
use wemixvisor.Base.Sort.{sort, sort-In}
use wemixvisor.Cli.Parser.{
  ParsedArgs, parse_rest, parse_one, takes_value, is_valid_command, is_wemixvisor_flag,
  extract_geth_compatible_args, contains_flag, missing_keys, default_args, add_defaults,
  build_node_args, str_less,
}
use wemixvisor.Cli.Parser.Commands.{start_of}

node_args-parse_one :
    (arg : String) (p : ParsedArgs)
    → (parse_one arg p).node_args
      ≡ (if is_wemixvisor_flag arg then p.node_args else p.node_args ++ arg ∷ [])
unfolding parse_one
node_args-parse_one arg p = ground arith

node_args-parse_rest :
    (args : List String) (p : ParsedArgs)
    → All (λ a. is_valid_command a ≡ false) args
    → (parse_rest args p).node_args ≡ p.node_args ++ extract_geth_compatible_args args
unfolding parse_rest extract_geth_compatible_args takes_value
node_args-parse_rest [] p h = sym (append-nil p.node_args)
node_args-parse_rest (arg ∷ []) p h =
    ground (arith, node_args-parse_one arg p, append-nil p.node_args)
node_args-parse_rest (arg ∷ next ∷ rest) p h = ground (
  arith,
  node_args-parse_rest rest (record p { wemixvisor_opts = GoMap.insert arg next p.wemixvisor_opts })
      (h.1).1,
  node_args-parse_rest (next ∷ rest) (parse_one arg p) h.1,
  node_args-parse_one arg p,
  append_assoc p.node_args (arg ∷ []) (extract_geth_compatible_args (next ∷ rest)),
)

-- The two routines that sort out the arguments agree: if no argument is spelled like a command,
-- the node arguments that the parser collects are those that the extraction keeps.
pub node_args-parse :
    (cmd : String) (args : List String)
    → All (λ a. is_valid_command a ≡ false) args
    → (parse_rest args (start_of cmd)).node_args ≡ extract_geth_compatible_args args
node_args-parse cmd args h = node_args-parse_rest args (start_of cmd) h

contains_flag-append :
    (xs ys : List String) (k : String)
    → contains_flag (xs ++ ys) k ≡ (if contains_flag xs k then true else contains_flag ys k)
unfolding contains_flag
contains_flag-append [] ys k = refl
contains_flag-append (x ∷ xs) ys k = ground (arith, contains_flag-append xs ys k)

contains_flag-default_args :
    (defaults : GoMap String) (k : String) → contains_flag (default_args defaults k) k ≡ true
unfolding default_args contains_flag
contains_flag-default_args defaults k = ground arith

-- what is there stays there
add_defaults_keeps :
    (defaults : GoMap String) (args ks : List String) (k : String)
    → contains_flag args k ≡ true
    → contains_flag (add_defaults defaults args ks) k ≡ true
unfolding add_defaults
add_defaults_keeps defaults args [] k h = h
add_defaults_keeps defaults args (j ∷ ks) k h =
    add_defaults_keeps defaults (args ++ default_args defaults j) ks k
      (ground (arith, contains_flag-append args (default_args defaults j) k))

add_defaults_adds :
    (defaults : GoMap String) (args ks : List String) (k : String)
    → In k ks
    → contains_flag (add_defaults defaults args ks) k ≡ true
unfolding add_defaults
add_defaults_adds defaults args [] k m = absurd m
add_defaults_adds defaults args (j ∷ ks) k (inl e) =
    add_defaults_keeps defaults (args ++ default_args defaults j) ks k (
      ground (
        arith,
        contains_flag-append args (default_args defaults j) k,
        contains_flag-default_args defaults j,
      ))
add_defaults_adds defaults args (j ∷ ks) k (inr m) =
    add_defaults_adds defaults (args ++ default_args defaults j) ks k m

In-missing_keys :
    (args : List String) (m : GoMap String) (k v : String)
    → In (k, v) m
    → contains_flag args k ≡ false
    → In k (missing_keys args m)
unfolding missing_keys
In-missing_keys args [] k v i h = absurd i
In-missing_keys args ((j, w) ∷ m) k v (inl e) h =
    let here : j ≡ k = ap (λ (x : String × String). x.0) e in ground arith
In-missing_keys args ((j, w) ∷ m) k v (inr i) h = ground (arith, In-missing_keys args m k v i h)

-- Every default ends up among the arguments of the node: for each key of the defaults the built
-- arguments have the flag, given by the user or added.
pub contains_flag-build_node_args :
    (p : ParsedArgs) (defaults : GoMap String) (k v : String)
    → In (k, v) defaults
    → contains_flag (build_node_args p defaults) k ≡ true
unfolding build_node_args
contains_flag-build_node_args p defaults k v i =
    let missing = missing_keys p.node_args defaults in
    elim (Bool-cases (contains_flag p.node_args k)) [
      | inl given ↦ add_defaults_keeps defaults p.node_args (sort str_less missing) k given
      | inr lacks ↦
          add_defaults_adds defaults p.node_args (sort str_less missing) k
            (sort-In str_less k missing (In-missing_keys p.node_args defaults k v i lacks))
    ]

missing_keys-nil :
    (args : List String) (m : GoMap String)
    → ((k v : String) → In (k, v) m → contains_flag args k ≡ true)
    → missing_keys args m ≡ []
unfolding missing_keys
missing_keys-nil args [] h = refl
missing_keys-nil args ((j, w) ∷ m) h =
    ground (arith, h j w (inl refl), missing_keys-nil args m (λ k v i. h k v (inr i)))

-- Building is idempotent: arguments that were built with some defaults are left as they are when
-- they are built with the same defaults again.
pub build_node_args_idem :
    (p : ParsedArgs) (defaults : GoMap String)
    → build_node_args (record p { node_args = build_node_args p defaults }) defaults
      ≡ build_node_args p defaults
unfolding build_node_args add_defaults sort
build_node_args_idem p defaults =
    rw
      (missing_keys-nil (build_node_args p defaults) defaults
        (λ k v i. contains_flag-build_node_args p defaults k v i))
      refl
