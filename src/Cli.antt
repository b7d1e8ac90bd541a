-- ===== src/Cli.antt =====
-- The command line, of crates/github-oras-packages-proxy/src/cli.rs.
pub mod Laws
use github_oras_packages.Base.{
  Bool, true, false, not, ◌&&◌, ◌||◌, Option, none, some, List, [], ◌∷◌, ◌++◌, Bytes, bytes, Result,
  ok, err, ◌>>=◌, ◌>>◌, fail_if, is_empty, text_eq, if◌then◌else◌,
}

pub data AutoindexCommand : Type 0 where
  create : (source path : Bytes) → (dry_run : Bool) → AutoindexCommand
  update : (source path : Bytes) → (dry_run : Bool) → AutoindexCommand
  delete : (path : Bytes) → (confirm dry_run : Bool) → AutoindexCommand

pub data Command : Type 0 where
  serve help : Command
  autoindex : AutoindexCommand → Command

pub data CliError : Type 0 where
  invalid_arguments : CliError

abbrev pub is_help : Bytes → Bool
is_help s = text_eq s (bytes "help") || text_eq s (bytes "--help") || text_eq s (bytes "-h")

-- `arguments.next().is_none()`
abbrev pub none_left : List Bytes → Bool
none_left [] = true
none_left (argument ∷ arguments) = false

-- The loop over the options of `create` and `update`.
unfoldable pub dry_run_options : Bool → List Bytes → Result CliError Bool
dry_run_options dry_run [] = ok dry_run
dry_run_options dry_run (argument ∷ arguments) =
    let rest = dry_run_options true arguments in
    if text_eq argument (bytes "--dry-run") && not dry_run then rest else err invalid_arguments

-- The loop over the options of `delete`.
unfoldable pub delete_options : Bool → Bool → List Bytes → Result CliError (Bool × Bool)
delete_options confirm dry_run [] = ok (confirm, dry_run)
delete_options confirm dry_run (argument ∷ arguments) =
    let confirmed = delete_options true dry_run arguments in
    let dry = delete_options confirm true arguments in
    if text_eq argument (bytes "--yes") && not confirm
    then confirmed
    else if text_eq argument (bytes "--dry-run") && not dry_run
    then dry
    else err invalid_arguments

abbrev pub bool_eq : Bool → Bool → Bool
bool_eq true b = b
bool_eq false b = not b

unfoldable pub parse_update : Bytes → Bytes → List Bytes → Result CliError Command
parse_update operation source [] = err invalid_arguments
parse_update operation source (path ∷ arguments) = do
  dry_run ← dry_run_options false arguments
  ok (
      autoindex (
        if text_eq operation (bytes "create")
        then create source path dry_run
        else update source path dry_run))

unfoldable pub parse_delete : Bytes → List Bytes → Result CliError Command
parse_delete path arguments = do
  (confirm, dry_run) ← delete_options false false arguments
  fail_if (bool_eq confirm dry_run) invalid_arguments
  ok (autoindex (delete path confirm dry_run))

-- The match of `parse_autoindex` on the operation.
unfoldable pub parse_operation : Bytes → Bytes → List Bytes → Result CliError Command
parse_operation operation argument arguments =
    if text_eq operation (bytes "create") || text_eq operation (bytes "update")
    then parse_update operation argument arguments
    else if text_eq operation (bytes "delete")
    then parse_delete argument arguments
    else err invalid_arguments

unfoldable pub parse_autoindex : List Bytes → Result CliError Command
parse_autoindex [] = err invalid_arguments
parse_autoindex (operation ∷ []) = if is_help operation then ok help else err invalid_arguments
parse_autoindex (operation ∷ argument ∷ arguments) =
    if is_help operation
    then err invalid_arguments
    else parse_operation operation argument arguments

unfoldable pub parse_command : Bytes → List Bytes → Result CliError Command
parse_command command arguments =
    if text_eq command (bytes "serve") && none_left arguments
    then ok serve
    else if is_help command && none_left arguments
    then ok help
    else if text_eq command (bytes "autoindex")
    then parse_autoindex arguments
    else err invalid_arguments

unfoldable pub parse : List Bytes → Result CliError Command
parse [] = ok serve
parse (program ∷ []) = ok serve
parse (program ∷ command ∷ arguments) = parse_command command arguments
