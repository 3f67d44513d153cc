-- ===== src/Location/Events/Calls.antt =====
-- The answers to the calls of the location helper (app/location.c) keep what is known of it.
use mathlib.Core.Bool.{false≢true}
use whitenoise_linux.Base.{
  List, [], ◌∷◌, Bytes, Bool, true, false, Option, none, some, codes, ◌≡◌, refl, sym, subst, ◌∙◌,
  arith, Bool-cases, inl, inr, if_true, if_false,
}
use whitenoise_linux.Location.{
  deadline, Location, Call, get_bus, create_session, start, Bus, connected, created, started,
  bus_ready, session_done, start_done, portal_path,
}
use whitenoise_linux.Location.Events.{
  Event, latest, response, location_updated, session_answer, start_answer, bus_answer, closed,
  deadline_passed, bus_lost, Helper, step, on_bus, on_session, on_start, helper, run,
}
use whitenoise_linux.Location.Events.Permitted.{
  Facts, Judged, Facts-later, maybe_finish-kept, Facts-IsBlind, maybe_finish-Judged,
}
use whitenoise_linux.Location.Events.Known.{IsSound, later, unavailable-IsSound, running-fails}
use whitenoise_linux.Location.Events.Steps.{
  unless_ended, response_signal-IsSound, location_signal-IsSound, closed-IsSound,
}

-- The two are different.
abbrev clash : (b : Bool) → b ≡ false → b ≡ true → ⊥
clash b e f = false≢true (sym e ∙ f)

-- A state in which Start has not returned is judged by its success.
early-Judged : (l : Location) → l.success ≡ false → l.start_returned ≡ false → Judged l
early-Judged l f s = record {
  published = λ e. absurd (clash l.success f e);
  waiting = λ _ e. absurd (clash l.start_returned s e);
}

connected-IsSound :
    (es : List Event) (l : Location) (bus : Option Bus)
    → IsSound es (some get_bus) l
    → l.finished ≡ false
    → IsSound es (connected l bus).1 (connected l bus).0
connected-IsSound es l none h r =
    unavailable-IsSound es none l (record { facts = h.facts; judged = h.judged; phase = tt })
connected-IsSound es l (some b) h r =
    let (_, s, t) = h.phase in
    record {
      facts = record {
        heard = h.facts.heard;
        few = h.facts.few;
        fixed = λ e. let (_, _, _, _, u) = h.facts.fixed e in absurd (clash l.starting s u);
        own = λ e. absurd (clash l.starting s e);
        has_session = λ _. (portal_path (codes "session/") b, refl);
        has_request = λ _. (portal_path (codes "request/") b, refl);
        start_created = λ _. refl;
        on_bus = λ _. refl;
        returned = λ e. absurd (clash l.start_returned t e);
      };
      judged = early-Judged _ (running-fails l h.judged r) t;
      phase = (refl, s, t);
    }

created-IsSound :
    (es : List Event) (token : Bytes) (l : Location) (reply : Option Bytes)
    → IsSound es (some (create_session token)) l
    → l.finished ≡ false
    → IsSound (session_answer reply ∷ es) (created l reply).1 (created l reply).0
created-IsSound es token l none h r =
    unavailable-IsSound (session_answer none ∷ es) none l (record {
      facts = Facts-later (session_answer none) es l h.facts;
      judged = h.judged;
      phase = tt;
    })
created-IsSound es token l (some session) h r =
    let (k, s, t) = h.phase in
    let x = Facts-later (session_answer (some session)) es l h.facts in
    record {
      facts = record {
        heard = x.heard;
        few = x.few;
        fixed = λ e. let (_, _, _, _, u) = x.fixed e in absurd (clash l.starting s u);
        own = λ _. (session, refl, latest);
        has_session = λ _. (session, refl);
        has_request = x.has_request;
        start_created = λ _. k;
        on_bus = x.on_bus;
        returned = λ e. absurd (clash l.start_returned t e);
      };
      judged = early-Judged _ (running-fails l h.judged r) t;
      phase = (k, refl, t);
    }

started-IsSound :
    (es : List Event) (session : Bytes) (token : Option Bytes) (l : Location) (reply : Option Bytes)
    → IsSound es (some (start session token)) l
    → l.finished ≡ false
    → IsSound (start_answer reply ∷ es) none (started l reply)
started-IsSound es session token l none h r =
    unavailable-IsSound (start_answer none ∷ es) none l (record {
      facts = Facts-later (start_answer none) es l h.facts;
      judged = h.judged;
      phase = tt;
    })
started-IsSound es session token l (some request) h r = record {
  facts = maybe_finish-kept (Facts es') (Facts-IsBlind es') l' facts;
  judged = maybe_finish-Judged l' r (running-fails l h.judged r);
  phase = tt;
}
  where
    es' : List Event
    es' = start_answer (some request) ∷ es

    l' : Location
    l' = record l { request = some request; start_returned = true }

    facts : Facts es' l'
    facts =
        let x = Facts-later (start_answer (some request)) es l h.facts in
        record {
          heard = x.heard;
          few = x.few;
          fixed = x.fixed;
          own = x.own;
          has_session = x.has_session;
          has_request = λ _. (request, refl);
          start_created = x.start_created;
          on_bus = x.on_bus;
          returned = λ _. (request, refl, latest);
        }

-- What the helper knows of itself after a history of events.
abbrev pub Holds : List Event → Helper → Type 0
Holds es h = IsSound es h.pending h.location

on_bus-IsSound :
    (es : List Event) (c : Option Call) (l : Location) (bus : Option Bus)
    → IsSound es c l
    → Holds (bus_answer bus ∷ es) (on_bus (helper (l, c)) c bus)
unfolding bus_ready
on_bus-IsSound es (some get_bus) l bus h =
    unless_ended (bus_answer bus ∷ es) (some get_bus) l (connected l bus) (later _ es _ l h)
      (connected-IsSound (bus_answer bus ∷ es) l bus (later _ es _ l h))
on_bus-IsSound es none l bus h = later _ es none l h
on_bus-IsSound es (some (create_session token)) l bus h = later _ es _ l h
on_bus-IsSound es (some (start session token)) l bus h = later _ es _ l h

on_session-IsSound :
    (es : List Event) (c : Option Call) (l : Location) (reply : Option Bytes)
    → IsSound es c l
    → Holds (session_answer reply ∷ es) (on_session (helper (l, c)) c reply)
unfolding session_done
on_session-IsSound es (some (create_session token)) l reply h =
    unless_ended (session_answer reply ∷ es) (some (create_session token)) l (created l reply)
      (later _ es _ l h) (created-IsSound es token l reply h)
on_session-IsSound es none l reply h = later _ es none l h
on_session-IsSound es (some get_bus) l reply h = later _ es _ l h
on_session-IsSound es (some (start session token)) l reply h = later _ es _ l h

on_start-IsSound :
    (es : List Event) (c : Option Call) (l : Location) (reply : Option Bytes)
    → IsSound es c l
    → Holds (start_answer reply ∷ es) (on_start (helper (l, c)) c reply)
unfolding start_done
on_start-IsSound es (some (start session token)) l reply h = elim (Bool-cases l.finished) [
  | inl e ↦
      let k = later (start_answer reply) es (some (start session token)) l h in
      subst (IsSound (start_answer reply ∷ es) none) (sym (if_true l.finished l _ e))
        (record { facts = k.facts; judged = k.judged; phase = tt })
  | inr e ↦
      subst (IsSound (start_answer reply ∷ es) none) (sym (if_false l.finished l _ e))
        (started-IsSound es session token l reply h e)
]
on_start-IsSound es none l reply h = later _ es none l h
on_start-IsSound es (some get_bus) l reply h = later _ es _ l h
on_start-IsSound es (some (create_session token)) l reply h = later _ es _ l h

step-IsSound : (es : List Event) (h : Helper) (e : Event) → Holds es h → Holds (e ∷ es) (step h e)
unfolding step deadline
step-IsSound es h deadline_passed k = unavailable-IsSound _ _ _ (later _ es _ _ k)
step-IsSound es h bus_lost k = unavailable-IsSound _ _ _ (later _ es _ _ k)
step-IsSound es h (closed path) k = closed-IsSound (closed path) es h.pending h.location path k
step-IsSound es h (response path code) k =
    response_signal-IsSound es h.pending h.location path code k
step-IsSound es h (location_updated values) k =
    location_signal-IsSound es h.pending h.location values k
step-IsSound es h (bus_answer bus) k = on_bus-IsSound es h.pending h.location bus k
step-IsSound es h (session_answer reply) k = on_session-IsSound es h.pending h.location reply k
step-IsSound es h (start_answer reply) k = on_start-IsSound es h.pending h.location reply k

pub run-IsSound : (es : List Event) → Holds es (run es)
unfolding run
run-IsSound [] = record {
  facts = record {
    heard = tt;
    few = omega arith;
    fixed = λ e. absurd (false≢true e);
    own = λ e. absurd (false≢true e);
    has_session = λ e. absurd (false≢true e);
    has_request = λ e. absurd (false≢true e);
    start_created = λ e. absurd (false≢true e);
    on_bus = λ e. absurd (false≢true e);
    returned = λ e. absurd (false≢true e);
  };
  judged = early-Judged _ refl refl;
  phase = (refl, refl, refl);
}
run-IsSound (e ∷ es) = step-IsSound es (run es) e (run-IsSound es)
