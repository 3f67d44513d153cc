-- ===== src/Location/Events.antt =====
-- The main loop of the location helper (app/location.c): what happens, in any order, and where it leads.
pub mod Permitted
pub mod Known
pub mod Steps
pub mod Calls
pub mod Published
pub mod Ends
use whitenoise_linux.Base.{ℕ, List, [], ◌∷◌, Bytes, Bool, true, false, Option, none, some}
use whitenoise_linux.Location.{
  Location, Double, Bus, Call, get_bus, create_session, start, deadline, response_signal,
  location_signal, session_closed, start_done, session_done, bus_ready,
}

-- The timer or SIGTERM, the end of the connection, the signals of the portal, and the answers to the
-- calls, `none` for an error.
pub data Event : Type 0 where
  deadline_passed : Event
  bus_lost : Event
  closed : Bytes → Event
  response : Bytes → Option ℕ → Event
  location_updated : Option (Bytes × Option Double × Option Double) → Event
  bus_answer : Option Bus → Event
  session_answer : Option Bytes → Event
  start_answer : Option Bytes → Event

-- The state of the helper, and its call that is not answered yet.
pub record Helper : Type 0 where
  pub location : Location
  pub pending : Option Call

abbrev pub helper : Location × Option Call → Helper
helper (l, call) = record { location = l; pending = call }

abbrev pub on_bus : Helper → Option Call → Option Bus → Helper
on_bus h (some get_bus) bus = helper (bus_ready h.location bus)
on_bus h none bus = h
on_bus h (some (create_session token)) bus = h
on_bus h (some (start session token)) bus = h

abbrev pub on_session : Helper → Option Call → Option Bytes → Helper
on_session h (some (create_session token)) reply = helper (session_done h.location reply)
on_session h none reply = h
on_session h (some get_bus) reply = h
on_session h (some (start session token)) reply = h

abbrev pub on_start : Helper → Option Call → Option Bytes → Helper
on_start h (some (start session token)) reply = helper (start_done h.location reply, none)
on_start h none reply = h
on_start h (some get_bus) reply = h
on_start h (some (create_session token)) reply = h

-- An answer without a call is none.
unfoldable pub step : Helper → Event → Helper
step h deadline_passed = record h { location = deadline h.location }
step h bus_lost = record h { location = deadline h.location }
step h (closed path) = record h { location = session_closed h.location path }
step h (response path code) = record h { location = response_signal h.location path code }
step h (location_updated values) = record h { location = location_signal h.location values }
step h (bus_answer bus) = on_bus h h.pending bus
step h (session_answer reply) = on_session h h.pending reply
step h (start_answer reply) = on_start h h.pending reply

-- Location location = {0} and g_bus_get.
abbrev pub initial : Helper
initial = record {
  location = record {
    has_bus = false;
    responses = [];
    session = none;
    request = none;
    creating = false;
    starting = false;
    start_returned = false;
    have_fix = false;
    finished = false;
    success = false;
    latitude = 0;
    longitude = 0;
  };
  pending = some get_bus;
}

-- The helper after a history of events, the latest first.
unfoldable pub run : List Event → Helper
unfolding step
run [] = initial
run (e ∷ es) = step (run es) e

pub data Happened (e : Event) : List Event → Type 0 where
  latest : {es : List Event} → Happened e (e ∷ es)
  earlier : {x : Event} {es : List Event} → Happened e es → Happened e (x ∷ es)
