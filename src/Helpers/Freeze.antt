-- ===== src/Helpers/Freeze.antt =====
-- What is frozen before the launcher starts (app/helper_broker.c): freeze_helpers and
-- freeze_environment.
pub mod Known
use whitenoise_linux.Base.Results.{Result, ok, err, ◌>>=◌, eperm, e2big, einval, enametoolong}
use whitenoise_linux.Base.{
  ℕ, suc, ◌+◌, ◌-◌, List, [], ◌∷◌, ◌++◌, Bytes, Bool, true, false, Option, none, some, ltb, leb,
  ◌==◌, ◌||◌, if◌then◌else◌, codes, same_bytes, length, take,
}
use whitenoise_linux.Broker.Strings.{strnlen, base_name}

abbrev pub helper_names : List Bytes
helper_names =
    codes "wn-image"
    ∷ codes "wn-archive"
    ∷ codes "wn-mesh"
    ∷ codes "wn-fbx"
    ∷ codes "wn-math"
    ∷ codes "wn-nes"
    ∷ codes "wn-pdf"
    ∷ codes "wn-font"
    ∷ codes "wn-stt"
    ∷ codes "wn-tts"
    ∷ codes "wn-translate"
    ∷ codes "wn-webview"
    ∷ []

abbrev pub helper_count : ℕ
helper_count = length helper_names

abbrev pub path_max : ℕ
path_max = 4096

-- ARG_BYTES
abbrev pub arg_bytes : ℕ
arg_bytes = 16384

-- enum helper_kind
pub data HelperKind : Type 0 where
  decoder pdf font optional : HelperKind

-- struct helper
pub record Helper : Type 0 where
  pub requested : Bytes
  pub executable : Bytes
  pub kind : HelperKind

-- The loop that looks for the name: its index, or HELPER_COUNT.
unfoldable pub index_of : Bytes → List Bytes → ℕ
index_of name [] = 0
index_of name (n ∷ ns) = if same_bytes name n then 0 else suc (index_of name ns)

unfoldable pub kind_of : ℕ → HelperKind
kind_of index =
    if ltb index 6
    then decoder
    else if index == 6
    then pdf
    else if index == 7
    then font
    else optional

-- Whether an earlier helper has this name.
unfoldable pub has_name : Bytes → List Helper → Bool
has_name name [] = false
has_name name (h ∷ hs) = same_bytes name (base_name h.requested) || has_name name hs

-- The frozen helpers, in order, and font_root.
pub record Frozen : Type 0 where
  pub helpers : List Helper
  pub font_root : Bytes

-- realpath: the path or its errno.
abbrev pub Realpath : Type 0
Realpath = Bytes → Result Bytes

abbrev pub is_pdf : HelperKind → Bool
is_pdf pdf = true
is_pdf decoder = false
is_pdf font = false
is_pdf optional = false

-- The font directory is looked up with the PDF helper only.
unfoldable pub font_root_of : Realpath → Bytes → HelperKind → Bytes → Result Bytes
font_root_of realpath resources kind root =
    if is_pdf kind
    then if leb path_max (length (resources ++ codes "/fonts"))
      then err enametoolong
      else realpath (resources ++ codes "/fonts")
    else ok root

abbrev pub with_executable :
    Realpath → Bytes → Frozen → Bytes → HelperKind → Result Bytes → Result Frozen
with_executable realpath resources f path kind (err e) = err e
with_executable realpath resources f path kind (ok executable) =
    font_root_of realpath resources kind f.font_root >>= λ root. ok (record {
      helpers = f.helpers ++ record { requested = path; executable = executable; kind = kind } ∷ [];
      font_root = root;
    })

-- One round of the loop over the paths; NULL is `none`.
unfoldable pub freeze_helper : Realpath → Bytes → Frozen → Option Bytes → Result Frozen
unfolding index_of has_name kind_of font_root_of
freeze_helper realpath resources f none = err einval
freeze_helper realpath resources f (some path) =
    let name = base_name path in
    let index = index_of name helper_names in
    if strnlen (path ++ 0 ∷ []) path_max == path_max
    then err einval
    else if index == helper_count
    then err eperm
    else if has_name name f.helpers
    then err einval
    else with_executable realpath resources f path (kind_of index) (realpath path)

unfoldable pub freeze_loop : Realpath → Bytes → Frozen → List (Option Bytes) → Result Frozen
unfolding freeze_helper
freeze_loop realpath resources f [] = ok f
freeze_loop realpath resources f (path ∷ paths) =
    freeze_helper realpath resources f path >>= λ f'. freeze_loop realpath resources f' paths

-- freeze_helpers: `helpers` and `resources` are NULL where they are `none`.
unfoldable pub freeze_helpers :
    Realpath → Option (List (Option Bytes)) → ℕ → Option Bytes → Result Frozen
unfolding freeze_loop
freeze_helpers realpath helpers count none = err einval
freeze_helpers realpath none count (some resources) =
    if count == 0 then ok (record { helpers = []; font_root = [] }) else err einval
freeze_helpers realpath (some paths) count (some resources) =
    if ltb helper_count count
    then err einval
    else freeze_loop realpath resources (record { helpers = []; font_root = [] }) (take count paths)

-- The keys of freeze_environment.
abbrev pub environment_keys : List Bytes
environment_keys =
    codes "HOME"
    ∷ codes "DISPLAY"
    ∷ codes "XAUTHORITY"
    ∷ codes "DBUS_SESSION_BUS_ADDRESS"
    ∷ codes "XDG_CONFIG_HOME"
    ∷ codes "XDG_DATA_HOME"
    ∷ codes "XDG_CACHE_HOME"
    ∷ codes "XDG_RUNTIME_DIR"
    ∷ codes "LANG"
    ∷ codes "LANGUAGE"
    ∷ codes "LC_ALL"
    ∷ codes "LC_CTYPE"
    ∷ codes "LC_MESSAGES"
    ∷ codes "TZ"
    ∷ codes "TMPDIR"
    ∷ codes "SQLITE_TMPDIR"
    ∷ codes "MESA_SHADER_CACHE_DIR"
    ∷ []

-- environment_bytes up to `used`, and the entries that point into it, the constant one not counted.
pub record Environment : Type 0 where
  pub block : Bytes
  pub entries : List Bytes

-- One round of the loop over the keys.
unfoldable pub freeze_variable : Environment → Bytes → Option Bytes → Result Environment
freeze_variable e key none = ok e
freeze_variable e key (some value) =
    let n = strnlen (value ++ 0 ∷ []) arg_bytes in
    let room = arg_bytes - length e.block in
    if ltb room n || ltb room (length key + n + 2)
    then err e2big
    else let entry = key ++ b'=' ∷ take n (value ++ 0 ∷ []) in
      ok (record { block = e.block ++ entry ++ 0 ∷ []; entries = e.entries ++ entry ∷ [] })

unfoldable pub freeze_environment :
    (Bytes → Option Bytes) → Environment → List Bytes → Result Environment
unfolding freeze_variable
freeze_environment getenv e [] = ok e
freeze_environment getenv e (key ∷ keys) =
    freeze_variable e key (getenv key) >>= λ e'. freeze_environment getenv e' keys
