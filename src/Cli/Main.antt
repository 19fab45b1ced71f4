-- ===== src/Cli/Main.antt =====
-- `main` of src/h4ckath0n/cli.py: which command runs, from the words that `argparse` has stored. A
-- word that is no choice of its parser never gets here: `argparse` exits with 2 before.
use h4ckrth0n.Prelude.{ℕ, ◌≡◌, refl, String, Option, none, some, is_none, is_text, if◌then◌else◌}
use h4ckrth0n.Cli.{exit_bad_args}

pub record Namespace : Type 0 where
  pub command : Option String
  pub db_command : Option String
  pub migrate_command : Option String
  pub users_command : Option String
  pub scopes_command : Option String
  pub devices_command : Option String
  pub passkeys_command : Option String

pub data Handler : Type 0 where
  db_ping db_migrate_upgrade db_migrate_downgrade db_migrate_current db_migrate_heads : Handler
  users_list users_show users_set_role users_disable users_enable : Handler
  users_scopes_add users_scopes_remove users_scopes_set : Handler
  devices_list devices_revoke passkeys_list passkeys_revoke : Handler

-- A command runs; help is printed and a code returned; or the parser is run on `--help`, which
-- prints help and ends the process with 0, before the return that follows.
pub data Dispatch : Type 0 where
  runs : Handler → Dispatch
  print_help : ℕ → Dispatch
  help_exits : Dispatch

unfoldable pub dispatch_migrate : Option String → Dispatch
dispatch_migrate migrate_cmd =
    if is_text migrate_cmd "upgrade"
    then runs db_migrate_upgrade
    else if is_text migrate_cmd "downgrade"
    then runs db_migrate_downgrade
    else if is_text migrate_cmd "current"
    then runs db_migrate_current
    else if is_text migrate_cmd "heads"
    then runs db_migrate_heads
    else help_exits

unfoldable pub dispatch_db : Namespace → Dispatch
unfolding dispatch_migrate
dispatch_db args =
    if is_text args.db_command "ping"
    then runs db_ping
    else if is_text args.db_command "migrate"
    then dispatch_migrate args.migrate_command
    else help_exits

unfoldable pub dispatch_scopes : Option String → Dispatch
dispatch_scopes scopes_cmd =
    if is_text scopes_cmd "add"
    then runs users_scopes_add
    else if is_text scopes_cmd "remove"
    then runs users_scopes_remove
    else if is_text scopes_cmd "set"
    then runs users_scopes_set
    else help_exits

unfoldable pub dispatch_users : Namespace → Dispatch
unfolding dispatch_scopes
dispatch_users args =
    if is_text args.users_command "list"
    then runs users_list
    else if is_text args.users_command "show"
    then runs users_show
    else if is_text args.users_command "set-role"
    then runs users_set_role
    else if is_text args.users_command "disable"
    then runs users_disable
    else if is_text args.users_command "enable"
    then runs users_enable
    else if is_text args.users_command "scopes"
    then dispatch_scopes args.scopes_command
    else help_exits

unfoldable pub dispatch_devices : Option String → Dispatch
dispatch_devices devices_cmd =
    if is_text devices_cmd "list"
    then runs devices_list
    else if is_text devices_cmd "revoke"
    then runs devices_revoke
    else help_exits

unfoldable pub dispatch_passkeys : Option String → Dispatch
dispatch_passkeys passkeys_cmd =
    if is_text passkeys_cmd "list"
    then runs passkeys_list
    else if is_text passkeys_cmd "revoke"
    then runs passkeys_revoke
    else help_exits

unfoldable pub main : Namespace → Dispatch
unfolding dispatch_db dispatch_users dispatch_devices dispatch_passkeys
main args =
    if is_none args.command
    then print_help exit_bad_args
    else if is_text args.command "db"
    then dispatch_db args
    else if is_text args.command "users"
    then dispatch_users args
    else if is_text args.command "devices"
    then dispatch_devices args.devices_command
    else if is_text args.command "passkeys"
    then dispatch_passkeys args.passkeys_command
    else print_help exit_bad_args

-- Without a command the code is that of bad arguments. A command group without one of its own
-- commands ends the process with 0, although the code goes on to return the code of bad arguments.
pub incomplete_commands_help :
    (args : Namespace)
    → (main (record args { command = none }) ≡ print_help exit_bad_args)
      × (main (record args { command = some "db"; db_command = none }) ≡ help_exits)
      × (main (record args {
        command = some "db";
        db_command = some "migrate";
        migrate_command = none;
      })
          ≡ help_exits)
      × (main (record args { command = some "users"; users_command = none }) ≡ help_exits)
      × (main (record args {
        command = some "users";
        users_command = some "scopes";
        scopes_command = none;
      })
          ≡ help_exits)
      × (main (record args { command = some "devices"; devices_command = none }) ≡ help_exits)
      × (main (record args { command = some "passkeys"; passkeys_command = none }) ≡ help_exits)
unfolding main
incomplete_commands_help args = (refl, refl, refl, refl, refl, refl, refl)
