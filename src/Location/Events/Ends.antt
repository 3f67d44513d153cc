-- ===== src/Location/Events/Ends.antt =====
-- When the location helper (app/location.c) ends, that it ends once, and what it closes behind it.
use mathlib.Core.Bool.{false≢true}
use whitenoise_linux.Base.{
  ℕ, zero, suc, List, [], ◌∷◌, ◌++◌, Bytes, Bool, true, false, not, Option, none, some, ◌&&◌, ◌||◌,
  if◌then◌else◌, ◌≡◌, refl, sym, subst, ap, ap₂, ◌∙◌, Bool-cases, inl, inr, if_true, if_false,
}
use whitenoise_linux.Location.{
  Location, LocationResult, location_unavailable, finish, lookup, lookup_request, is_some, Double,
  Call, closed_objects, get_bus, create_session, start, deadline, response_signal, location_signal,
  session_closed, bus_ready, Bus, session_done, start_done, connected, created, started, same_path,
}
use whitenoise_linux.Location.Events.{
  Event, response, location_updated, session_answer, start_answer, bus_answer, deadline_passed,
  bus_lost, closed, Helper, step, run, on_bus, on_session, on_start,
}
use whitenoise_linux.Location.Events.Permitted.{IsOpen}
use whitenoise_linux.Location.Events.Calls.{run-IsSound}

-- A response and what is known of the fix: a denial, or consent with a fix.
abbrev pub Decides : ℕ → Bool → Type 0
Decides zero fix = fix ≡ true
Decides (suc code) fix = Unit

open_undecided : (r : ℕ) (fix : Bool) → Decides r fix → IsOpen fix (some (suc r)) → ⊥
open_undecided zero fix d o = false≢true (sym o ∙ d)
open_undecided (suc r) fix d o = o

-- However the answer to Start, the response and the fix overtake each other: as soon as Start has
-- returned a request for which a denial is known, or consent together with a fix, the helper has
-- ended.
pub run-IsDecided :
    (es : List Event) (p : Bytes) (r : ℕ)
    → (run es).location.start_returned ≡ true
    → (run es).location.request ≡ some p
    → lookup p (run es).location.responses ≡ some (suc r)
    → Decides r (run es).location.have_fix
    → (run es).location.finished ≡ true
run-IsDecided es p r s q e d = elim (Bool-cases (run es).location.finished) [
  | inl f ↦ f
  | inr f ↦
      let l = (run es).location in
      let stored =
        subst (λ (o : Option Bytes). lookup_request o l.responses ≡ some (suc r)) (sym q) e in
      absurd (
        open_undecided r l.have_fix d
          (subst (IsOpen l.have_fix) stored ((run-IsSound es).judged.waiting f s)))
]

module _ (l : Location) (over : l.finished ≡ true) where
  finish_again : (r : LocationResult) → finish l r ≡ l
  finish_again r = if_true l.finished l _ over

  skipped : (b : Bool) (x : Location) → (if l.finished || b then l else x) ≡ l
  skipped b x = if_true (l.finished || b) l x (or_left l.finished b over)
    where
      or_left : (a b : Bool) → a ≡ true → (a || b) ≡ true
      or_left true b e = refl
      or_left false b e = absurd (false≢true e)

  response_again : (path : Bytes) (code : Option ℕ) → response_signal l path code ≡ l
  unfolding response_signal
  response_again path none = refl
  response_again path (some r) = skipped (not l.starting) _

  location_again :
      (values : Option (Bytes × Option Double × Option Double)) → location_signal l values ≡ l
  unfolding location_signal
  location_again none = refl
  location_again (some (path, a, b)) = skipped (not l.starting) _

  closed_again : (path : Bytes) → session_closed l path ≡ l
  unfolding session_closed
  closed_again path = elim (Bool-cases (same_path path l.session)) [
    | inl e ↦ if_true (same_path path l.session) _ l e ∙ finish_again location_unavailable
    | inr e ↦ if_false (same_path path l.session) _ l e
  ]

  call_again : (x : Location × Option Call) → (if l.finished then (l, none) else x).0 ≡ l
  call_again x = ap (λ (y : Location × Option Call). y.0) (if_true l.finished (l, none) x over)

  bus_again :
      (c : Option Call) (bus : Option Bus)
      → (on_bus (record { location = l; pending = c }) c bus).location ≡ l
  unfolding bus_ready
  bus_again (some get_bus) bus = call_again (connected l bus)
  bus_again none bus = refl
  bus_again (some (create_session token)) bus = refl
  bus_again (some (start session token)) bus = refl

  session_again :
      (c : Option Call) (reply : Option Bytes)
      → (on_session (record { location = l; pending = c }) c reply).location ≡ l
  unfolding session_done
  session_again (some (create_session token)) reply = call_again (created l reply)
  session_again none reply = refl
  session_again (some get_bus) reply = refl
  session_again (some (start session token)) reply = refl

  start_again :
      (c : Option Call) (reply : Option Bytes)
      → (on_start (record { location = l; pending = c }) c reply).location ≡ l
  unfolding start_done
  start_again (some (start session token)) reply = if_true l.finished l (started l reply) over
  start_again none reply = refl
  start_again (some get_bus) reply = refl
  start_again (some (create_session token)) reply = refl

step_again :
    (h : Helper) (e : Event) → h.location.finished ≡ true → (step h e).location ≡ h.location
unfolding step deadline
step_again h deadline_passed f = finish_again h.location f location_unavailable
step_again h bus_lost f = finish_again h.location f location_unavailable
step_again h (closed path) f = closed_again h.location f path
step_again h (response path code) f = response_again h.location f path code
step_again h (location_updated values) f = location_again h.location f values
step_again h (bus_answer bus) f = bus_again h.location f h.pending bus
step_again h (session_answer reply) f = session_again h.location f h.pending reply
step_again h (start_answer reply) f = start_again h.location f h.pending reply

-- Once the helper has ended, no event changes its outcome, or anything else of its state.
pub run-IsFinal :
    (es more : List Event)
    → (run es).location.finished ≡ true
    → (run (more ++ es)).location ≡ (run es).location
unfolding run
run-IsFinal es [] f = refl
run-IsFinal es (e ∷ more) f =
    let same = run-IsFinal es more f in
    step_again (run (more ++ es)) e (ap (λ (l : Location). l.finished) same ∙ f) ∙ same

-- The path of the request is closed where Start was called and the request has no response yet.
abbrev pub request_open : Location → Bool
request_open l = l.starting && not (is_some (lookup_request l.request l.responses))

module _ (l : Location) where
  closes_asked :
      (p s : Bytes)
      → l.creating ≡ true
      → l.has_bus ≡ true
      → l.request ≡ some p
      → l.session ≡ some s
      → closed_objects l ≡ (if request_open l then some p ∷ [] else []) ++ (some s ∷ [])
  unfolding closed_objects
  closes_asked p s e b q t =
      if_true l.has_bus _ [] b
      ∙ ap (λ (y : List (Option Bytes)). asked l.request ++ y)
          (if_true l.creating (l.session ∷ []) [] e)
      ∙ ap₂ (λ (x y : Option Bytes). asked x ++ (y ∷ [])) q t
    where
      asked : Option Bytes → List (Option Bytes)
      asked x = if request_open l then x ∷ [] else []

  closes_nothing : l.creating ≡ false → l.starting ≡ false → closed_objects l ≡ []
  unfolding closed_objects
  closes_nothing e s = elim (Bool-cases l.has_bus) [
    | inr b ↦ if_false l.has_bus _ [] b
    | inl b ↦
        if_true l.has_bus _ [] b
        ∙ ap₂ (λ (x y : List (Option Bytes)). x ++ y)
            (if_false (request_open l) (l.request ∷ []) [] (and_left l.starting _ s))
            (if_false l.creating (l.session ∷ []) [] e)
  ]
    where
      and_left : (a b : Bool) → a ≡ false → (a && b) ≡ false
      and_left true b e = absurd (false≢true (sym e))
      and_left false b e = refl

-- At whatever point the helper ends: if it has asked for a session, it closes the session last, and
-- before it the request that is still open, and both have a path; if it has not, it closes nothing.
pub closed_objects-AreClosed :
    (es : List Event)
    → let l = (run es).location in
      (l.creating ≡ true
        → (p : Bytes) × (s : Bytes) × (l.request ≡ some p)
          × (l.session ≡ some s)
          × (closed_objects l ≡ (if request_open l then some p ∷ [] else []) ++ (some s ∷ [])))
      × (l.creating ≡ false → closed_objects l ≡ [])
closed_objects-AreClosed es =
    let x = (run-IsSound es).facts in
    let l = (run es).location in
    (
      λ e.
          let (p, q) = x.has_request e in
          let (s, t) = x.has_session e in (p, s, q, t, closes_asked l p s e (x.on_bus e) q t),
      λ e. closes_nothing l e (unasked l.starting l.creating e x.start_created),
    )
  where
    unasked : (a b : Bool) → b ≡ false → (a ≡ true → b ≡ true) → a ≡ false
    unasked true b e h = absurd (false≢true (sym e ∙ h refl))
    unasked false b e h = refl
