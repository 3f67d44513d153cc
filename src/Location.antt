-- ===== src/Location.antt =====
-- The location helper (app/location.c): its state and one function for each callback of the main loop.
pub mod Events
use whitenoise_linux.Base.{
  ℕ, zero, suc, ◌+◌, ◌-◌, ◌^◌, ◌%◌, List, [], ◌∷◌, ◌++◌, Bytes, Bool, true, false, not, Option,
  none, some, ltb, leb, ◌==◌, ◌&&◌, ◌||◌, if◌then◌else◌, codes, same_bytes, length, drop,
}
use whitenoise_linux.Broker.Strings.{after_slash}

pub data LocationResult : Type 0 where
  location_unavailable : LocationResult
  location_fix : LocationResult

abbrev pub is_fix : LocationResult → Bool
is_fix location_unavailable = false
is_fix location_fix = true

-- A GHashTable of unsigned numbers by paths.
abbrev pub Table : Type 0
Table = List (Bytes × ℕ)

unfoldable pub lookup : Bytes → Table → Option ℕ
lookup key [] = none
lookup key ((path, value) ∷ table) = if same_bytes key path then some value else lookup key table

abbrev pub is_some : Option ℕ → Bool
is_some none = false
is_some (some value) = true

unfoldable pub replace : Bytes → ℕ → Table → Table
replace key value [] = (key, value) ∷ []
replace key value ((path, other) ∷ table) =
    if same_bytes key path then (key, value) ∷ table else (path, other) ∷ replace key value table

-- A double as its 64 bits.
abbrev pub Double : Type 0
Double = ℕ

-- struct Location: `has_bus` is bus != NULL, and `none` a NULL.
pub record Location : Type 0 where
  pub has_bus : Bool
  pub responses : Table
  pub session : Option Bytes
  pub request : Option Bytes
  pub creating : Bool
  pub starting : Bool
  pub start_returned : Bool
  pub have_fix : Bool
  pub finished : Bool
  pub success : Bool
  pub latitude : Double
  pub longitude : Double

abbrev pub finish : Location → LocationResult → Location
finish l result = if l.finished then l else record l { finished = true; success = is_fix result }

-- g_hash_table_lookup with a key that may be NULL, which is not looked up before Start has returned.
abbrev pub lookup_request : Option Bytes → Table → Option ℕ
lookup_request none table = none
lookup_request (some path) table = lookup path table

-- The end of maybe_finish, by `stored`, which is the response plus one.
abbrev pub decided : Location → Option ℕ → Location
decided l none = l
decided l (some zero) = l
decided l (some (suc zero)) = if l.have_fix then finish l location_fix else l
decided l (some (suc (suc response))) = finish l location_unavailable

unfoldable pub maybe_finish : Location → Location
maybe_finish l =
    if not l.start_returned then l else decided l (lookup_request l.request l.responses)

-- The parameters of a Response, `none` where they are of another type.
unfoldable pub response_signal : Location → Bytes → Option ℕ → Location
unfolding maybe_finish
response_signal l path none = l
response_signal l path (some response) =
    if l.finished || not l.starting
    then l
    else if leb response 2 && (is_some (lookup path l.responses) || ltb (length l.responses) 8)
    then maybe_finish (record l { responses = replace path (response + 1) l.responses })
    else l

-- The bits of 90.0 and 180.0, and those that an infinity has.
abbrev pub ninety : Double
ninety = 4636033603912859648

abbrev pub hundred_eighty : Double
hundred_eighty = 4640537203540230144

abbrev pub infinity : Double
infinity = 9218868437227405312

abbrev pub magnitude : Double → ℕ
magnitude d = d % 2 ^ 63

-- isfinite(d) && d >= -limit && d <= limit, for a finite positive limit.
unfoldable pub within : Double → Double → Bool
within d limit = ltb (magnitude d) infinity && leb (magnitude d) limit

-- g_strcmp0 against a field that may be NULL.
abbrev pub same_path : Bytes → Option Bytes → Bool
same_path path none = false
same_path path (some other) = same_bytes path other

abbrev pub located : Location → Bytes → Option Double → Option Double → Location
located l path none longitude = l
located l path (some latitude) none = l
located l path (some latitude) (some longitude) =
    if same_path path l.session
      && within latitude ninety
      && within longitude hundred_eighty
      && not l.have_fix
    then maybe_finish (record l { latitude = latitude; longitude = longitude; have_fix = true })
    else l

-- The parameters of a LocationUpdated, `none` where they are of another type: the session, and the
-- coordinates, where there are such values.
unfoldable pub location_signal :
    Location → Option (Bytes × Option Double × Option Double) → Location
unfolding maybe_finish within
location_signal l none = l
location_signal l (some (path, latitude, longitude)) =
    if l.finished || not l.starting then l else located l path latitude longitude

unfoldable pub session_closed : Location → Bytes → Location
session_closed l path = if same_path path l.session then finish l location_unavailable else l

-- deadline and bus_closed
unfoldable pub deadline : Location → Location
deadline l = finish l location_unavailable

-- A call to the portal that waits for its answer.
pub data Call : Type 0 where
  get_bus : Call
  create_session : Bytes → Call
  start : Bytes → Option Bytes → Call

abbrev pub started : Location → Option Bytes → Location
started l none = finish l location_unavailable
started l (some request) = maybe_finish (record l { request = some request; start_returned = true })

unfoldable pub start_done : Location → Option Bytes → Location
unfolding maybe_finish
start_done l reply = if l.finished then l else started l reply

-- strrchr(location->request, '/') + 1
abbrev pub token_of : Option Bytes → Option Bytes
token_of none = none
token_of (some request) = after_slash request

abbrev pub created : Location → Option Bytes → Location × Option Call
created l none = (finish l location_unavailable, none)
created l (some session) = (
  record l { session = some session; starting = true },
  some (start session (token_of l.request)),
)

unfoldable pub session_done : Location → Option Bytes → Location × Option Call
session_done l reply = if l.finished then (l, none) else created l reply

-- What g_bus_get gives: the unique name of the connection, and a random UUID.
pub record Bus : Type 0 where
  pub unique_name : Bytes
  pub uuid : Bytes

abbrev pub exchanged : ℕ → Bytes → Bytes
exchanged old [] = []
exchanged old (c ∷ s) = (if c == old then b'_' else c) ∷ exchanged old s

abbrev pub portal_path : Bytes → Bus → Bytes
portal_path kind b =
    (codes "/org/freedesktop/portal/desktop/" ++ kind)
    ++ (exchanged b'.' (drop 1 b.unique_name) ++ (codes "/wn_location_" ++ exchanged b'-' b.uuid))

abbrev pub connected : Location → Option Bus → Location × Option Call
connected l none = (finish l location_unavailable, none)
connected l (some b) = (
  record l {
    has_bus = true;
    session = some (portal_path (codes "session/") b);
    request = some (portal_path (codes "request/") b);
    creating = true;
  },
  some (create_session (codes "wn_location_" ++ exchanged b'-' b.uuid)),
)

unfoldable pub bus_ready : Location → Option Bus → Location × Option Call
bus_ready l bus = if l.finished then (l, none) else connected l bus

-- What main does behind its loop: the objects that it closes at the portal (`none` for a NULL path),
-- and the coordinates that it prints.
unfoldable pub closed_objects : Location → List (Option Bytes)
closed_objects l =
    if l.has_bus
    then (if l.starting && not (is_some (lookup_request l.request l.responses))
        then l.request ∷ []
        else [])
      ++ (if l.creating then l.session ∷ [] else [])
    else []

unfoldable pub printed : Location → Option (Double × Double)
printed l = if l.success then some (l.latitude, l.longitude) else none
