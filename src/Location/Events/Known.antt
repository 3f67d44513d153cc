-- ===== src/Location/Events/Known.antt =====
-- What the location helper (app/location.c) knows together, and its end.
use mathlib.Core.Bool.{false≢true}
use whitenoise_linux.Base.{
  List, ◌∷◌, Bool, true, false, Option, none, some, ◌≡◌, sym, ◌∙◌, Bool-cases, inl, inr,
}
use whitenoise_linux.Location.{
  Location, location_unavailable, finish, maybe_finish, Call, get_bus, create_session, start,
}
use whitenoise_linux.Location.Events.{Event}
use whitenoise_linux.Location.Events.Permitted.{
  Facts, Judged, finish-kept, maybe_finish-kept, Facts-IsBlind, Facts-later, finish-Judged,
  maybe_finish-Judged,
}

-- How far the calls have come, by the one that is not answered yet.
abbrev pub Phase : Option Call → Location → Type 0
Phase none l = Unit
Phase (some get_bus) l = (l.creating ≡ false) × (l.starting ≡ false) × (l.start_returned ≡ false)
Phase (some (create_session token)) l =
    (l.creating ≡ true) × (l.starting ≡ false) × (l.start_returned ≡ false)
Phase (some (start session token)) l =
    (l.creating ≡ true) × (l.starting ≡ true) × (l.start_returned ≡ false)

pub record IsSound (es : List Event) (c : Option Call) (l : Location) : Type 0 where
  pub facts : Facts es l
  pub judged : Judged l
  pub phase : Phase c l

pub Phase-IsBlind :
    (c : Option Call) (l : Location) (f s : Bool)
    → Phase c l
    → Phase c (record l { finished = f; success = s })
Phase-IsBlind none l f s p = p
Phase-IsBlind (some get_bus) l f s p = p
Phase-IsBlind (some (create_session token)) l f s p = p
Phase-IsBlind (some (start session token)) l f s p = p

pub later :
    (e : Event) (es : List Event) (c : Option Call) (l : Location)
    → IsSound es c l
    → IsSound (e ∷ es) c l
later e es c l h = record { facts = Facts-later e es l h.facts; judged = h.judged; phase = h.phase }

-- What ends the helper without a fix.
pub unavailable-IsSound :
    (es : List Event) (c : Option Call) (l : Location)
    → IsSound es c l
    → IsSound es c (finish l location_unavailable)
unavailable-IsSound es c l h = record {
  facts = finish-kept (Facts es) (Facts-IsBlind es) l location_unavailable h.facts;
  judged = finish-Judged l h.judged;
  phase = finish-kept (Phase c) (Phase-IsBlind c) l location_unavailable h.phase;
}

-- A helper that runs has not succeeded.
pub running-fails : (l : Location) → Judged l → l.finished ≡ false → l.success ≡ false
running-fails l j r = elim (Bool-cases l.success) [
  | inl e ↦ let a = j.published e in absurd (false≢true (sym r ∙ a.over))
  | inr e ↦ e
]

-- New facts are looked at by maybe_finish.
pub maybe_finish-IsSound :
    (es : List Event) (c : Option Call) (l : Location)
    → Facts es l
    → Phase c l
    → l.finished ≡ false
    → l.success ≡ false
    → IsSound es c (maybe_finish l)
maybe_finish-IsSound es c l x p r f = record {
  facts = maybe_finish-kept (Facts es) (Facts-IsBlind es) l x;
  judged = maybe_finish-Judged l r f;
  phase = maybe_finish-kept (Phase c) (Phase-IsBlind c) l p;
}
