-- ===== src/Cli/Pi.antt =====
-- `check_pi_version` and `_ensure_pi`: whether an install goes on. What `pi --version`, `which npm`,
-- `node --version` and `npm install` answer is a parameter.
use storageops.Base.{
  if◌then◌else◌, Bool, true, false, not, Option, none, some, [], Text, txt, ◌===◌,
}
use storageops.Cli.Versions.{Triple, pi_version_ok, node_too_old}

-- What the programs answer before anything is deployed.
pub record PiSetup : Type 0 where
  -- what `pi --version` prints, stripped, and none where it cannot be started
  pub pi_output : Option Text
  pub npm_found : Bool
  pub node_triple : Option Triple
  -- `npm install` returns 0
  pub npm_installs : Bool

-- Whether the version is new enough, and the version.
unfoldable pub check_pi_version : Option Text → Bool × Text
unfolding pi_version_ok txt ◌===◌
check_pi_version none = (false, txt "not found")
check_pi_version (some raw) =
    let ver = if raw === [] then txt "0.0.0" else raw in (pi_version_ok ver, ver)

-- `_ensure_pi` without its messages: true where it returns, and false where it ends the program with
-- exit code 1. After `npm install` a version that is still too old is only warned about.
unfoldable pub ensure_pi : PiSetup → Bool
unfolding check_pi_version node_too_old ◌===◌ txt
ensure_pi setup =
    let (ok, ver) = check_pi_version setup.pi_output in
    if ok
    then true
    else if not (ver === txt "not found")
    then false
    else if not setup.npm_found
    then false
    else if node_too_old setup.node_triple
    then false
    else setup.npm_installs
