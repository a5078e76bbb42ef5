-- ===== src/Cli/World.antt =====
-- What the command keeps on disk and in the environment: an agent directory with the `skills`
-- directory beside it, and `os.environ`.
use storageops.Base.{Bool, true, false, not, ◌&&◌, Option, none, some, [], Text, txt, ◌===◌}
use storageops.Base.Dict.{Dict, lookup, contains}
use storageops.Json.{Json, obj, Fields, end}

-- A file of JSON text: absent, no JSON, or a document.
pub data File : Type 0 where
  absent invalid : File
  document : Json → File

-- An entry of a directory, with its content as one text.
pub data Node : Type 0 where
  plain folder : Text → Node

abbrev pub Listing : Type 0
Listing = Dict Node

-- `agent/`: settings.json, its backup, auth.json, api-key, extensions/; and `skills/` beside it.
pub record Agent : Type 0 where
  pub settings : File
  pub backup : File
  pub auth : File
  pub api_key : Option Text
  pub extensions : Dict Text
  pub skills : Option Listing

-- `~/.storageops/agent`, `~/.pi/agent`, and `~/.storageops/install.json`.
pub record Home : Type 0 where
  pub own : Agent
  pub pi : Agent
  pub marker : File

abbrev pub Env : Type 0
Env = Dict Text

abbrev pub exists : File → Bool
exists absent = false
exists _ = true

abbrev is_dir : Option Listing → Bool
is_dir none = false
is_dir (some entries) = true

unfoldable pub is_installed : Agent → Bool
unfolding contains txt
is_installed agent =
    exists agent.settings && contains agent.extensions (txt "storageops.ts") && is_dir agent.skills

-- `_read_json_file`: an object, else an empty one.
unfoldable pub read_json_file : File → Fields
read_json_file (document (obj d)) = d
read_json_file _ = end

-- The value of a variable, read for true.
unfoldable pub is_given : Option Text → Bool
unfolding ◌===◌
is_given none = false
is_given (some s) = not (s === [])

-- `os.environ.get(name)`, read for true.
unfoldable pub is_set : Env → Text → Bool
unfolding lookup is_given
is_set env name = is_given (lookup env name)
