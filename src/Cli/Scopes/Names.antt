-- ===== src/Cli/Scopes/Names.antt =====
-- What the operator stores as scopes is a list of names, and endpoints read that list.
use Prim.Native.Char.{Char}
use h4ckrth0n.Prelude.{◌&&◌, String, Bool, map, contains}
use h4ckrth0n.Text.{strip}
use h4ckrth0n.Text.Split.{split}
use h4ckrth0n.Models.{User}
use h4ckrth0n.Db.Session.{Session}
use h4ckrth0n.Auth.Dependencies.{comma}
use h4ckrth0n.Cli.Scopes.{is_filled}
use h4ckrth0n.Cli.{Exit, output}

exit_of : User → Exit User → User
exit_of u (output v) = v
exit_of u _ = u

-- A scope that the operator wrote: not empty, and a part of the text between commas, without the
-- white space around it.
abbrev pub is_written : String → String → Bool
is_written raw s = is_filled s && contains s (map strip (split comma raw))
