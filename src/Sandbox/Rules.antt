-- ===== src/Sandbox/Rules.antt =====
-- The rules of the sandbox (app/main_sandbox.c): within, add and writable, over a table of paths with
-- permissions.
pub mod Disjoint
pub mod Chain
pub mod Writable
use whitenoise_linux.Base.{
  ℕ, List, [], ◌∷◌, ◌++◌, Bytes, Bool, true, false, not, Option, none, some, ◌==◌, ◌&&◌, ◌||◌,
  if◌then◌else◌, codes, same_bytes, length, take, drop,
}

-- struct rule
pub record Rule : Type 0 where
  pub path : Bytes
  pub permissions : Bytes

abbrev pub rule_max : ℕ
rule_max = 128

-- path[n] == '/' || path[n] == '\0', by the text from n on.
abbrev pub at_end : Bytes → Bool
at_end [] = true
at_end (c ∷ rest) = c == b'/'

unfoldable pub within : Bytes → Bytes → Bool
within path directory =
    same_bytes directory (codes "/")
    || same_bytes (take (length directory) path) directory && at_end (drop (length directory) path)

-- strchr(permissions, 'w') != NULL
unfoldable pub writes : Bytes → Bool
writes [] = false
writes (c ∷ permissions) = c == b'w' || writes permissions

abbrev pub differ : Bool → Bool → Bool
differ true b = not b
differ false b = b

-- The test of the loop whether one of the trees is in the other, and only one is writable.
unfoldable pub overlaps : Rule → Bytes → Bytes → Bool
overlaps r path permissions =
    differ (writes permissions) (writes r.permissions) && (within path r.path || within r.path path)

-- How the loop over the rules ends: with a return of 0, with a failure, or behind the last rule.
pub data Verdict : Type 0 where
  present : Verdict
  refused : Verdict
  fresh : Verdict

unfoldable pub against : List Rule → Bytes → Bytes → Verdict
unfolding overlaps
against [] path permissions = fresh
against (r ∷ rules) path permissions =
    if same_bytes r.path path
    then if same_bytes r.permissions permissions then present else refused
    else if overlaps r path permissions
    then refused
    else against rules path permissions

-- What realpath answers: a path, or an error, which is ENOENT or another.
pub data Resolved : Type 0 where
  resolved : Bytes → Resolved
  missing : Resolved
  unresolved : Resolved

abbrev pub entered : List Rule → Bytes → Bytes → Verdict → Option (List Rule)
entered rules path permissions present = some rules
entered rules path permissions refused = none
entered rules path permissions fresh =
    if length rules == rule_max
    then none
    else some (rules ++ record { path = path; permissions = permissions } ∷ [])

-- The rules behind a call of add, or `none` for -1, which leaves them as they were.
unfoldable pub add : List Rule → Resolved → Bytes → Bool → Option (List Rule)
unfolding against
add rules unresolved permissions optional = none
add rules missing permissions optional = if optional then some rules else none
add rules (resolved path) permissions optional =
    entered rules path permissions (against rules path permissions)

abbrev pub protected : List Bytes
protected =
    codes "/"
    ∷ codes "/tmp"
    ∷ codes "/var/tmp"
    ∷ codes "/usr"
    ∷ codes "/etc"
    ∷ codes "/bin"
    ∷ codes "/sbin"
    ∷ codes "/dev"
    ∷ codes "/var"
    ∷ codes "/home"
    ∷ []

unfoldable pub is_protected : Bytes → List Bytes → Bool
is_protected path [] = false
is_protected path (p ∷ ps) = same_bytes path p || is_protected path ps

-- `answer` is what realpath gives for the path.
unfoldable pub writable : List Rule → Bytes → Bytes → Resolved → Option (List Rule)
unfolding add is_protected
writable rules path home answer =
    if within home path
    then none
    else if is_protected path protected
    then none
    else add rules answer (codes "rwc") false

-- The grants that wn_main_sandbox_prepare asks for, in order, each with realpath's answer.
pub data Grant : Type 0 where
  tree : Resolved → Bytes → Bool → Grant
  writable_tree : Bytes → Bytes → Resolved → Grant

unfoldable pub granted : List Rule → Grant → Option (List Rule)
unfolding writable
granted rules (tree answer permissions optional) = add rules answer permissions optional
granted rules (writable_tree path home answer) = writable rules path home answer

abbrev pub and_then : Option (List Rule) → (List Rule → Option (List Rule)) → Option (List Rule)
and_then none rest = none
and_then (some rules) rest = rest rules

-- The first failure ends wn_main_sandbox_prepare.
unfoldable pub grant_all : List Rule → List Grant → Option (List Rule)
unfolding granted
grant_all rules [] = some rules
grant_all rules (g ∷ grants) = and_then (granted rules g) (λ more. grant_all more grants)
