-- ===== src/Location/Events/Steps.antt =====
-- Each event of the location helper (app/location.c) keeps what is known of it.
use mathlib.Core.Bool.{false≢true}
use whitenoise_linux.Base.{
  ℕ, suc, ◌+◌, ◌≤◌, List, [], ◌∷◌, Bytes, Bool, true, false, not, Option, none, some, leb, ltb,
  ◌&&◌, ◌||◌, if◌then◌else◌, same_bytes, same_bytes_iff, length, All, ◌≡◌, refl, sym, subst, ap,
  arith, Bool-cases, inl, inr, if_true, if_false,
}
use whitenoise_linux.Location.{
  Location, lookup, replace, is_some, within, ninety, hundred_eighty, Table, Double, Call, get_bus,
  create_session, start, same_path, located, response_signal, location_signal, session_closed,
}
use whitenoise_linux.Location.Events.{Event, latest, response, location_updated}
use whitenoise_linux.Location.Events.Permitted.{Facts, Heard, either, Facts-later, within-le}
use whitenoise_linux.Location.Events.Known.{
  Phase, IsSound, later, unavailable-IsSound, running-fails, maybe_finish-IsSound,
}

replace-Heard :
    (es : List Event) (key : Bytes) (value : ℕ) (t : Table)
    → All (λ (row : Bytes × ℕ). Heard es row) t
    → Heard es (key, value)
    → All (λ (row : Bytes × ℕ). Heard es row) (replace key value t)
unfolding replace
replace-Heard es key value [] h x = (x, tt)
replace-Heard es key value ((path, other) ∷ t) (y, h) x =
    either (All (λ (row : Bytes × ℕ). Heard es row)) (same_bytes key path) _ _ (x, h)
      (y, replace-Heard es key value t h x)

length-replace :
    (key : Bytes) (value : ℕ) (t : Table)
    → length (replace key value t) ≡ (if is_some (lookup key t) then length t else suc (length t))
unfolding replace lookup
length-replace key value [] = refl
length-replace key value ((path, other) ∷ t) = ground (arith, length-replace key value t)

replace-few :
    (key : Bytes) (value : ℕ) (t : Table)
    → length t ≤ 8
    → (is_some (lookup key t) || ltb (length t) 8) ≡ true
    → length (replace key value t) ≤ 8
replace-few key value t h e = ground (arith, length-replace key value t)

-- Where a signal is not looked at, nothing changes.
unless_running :
    (P : Location → Type 0) (l : Location) (x : Location)
    → P l
    → (l.finished ≡ false → l.starting ≡ true → P x)
    → P (if l.finished || not l.starting then l else x)
unless_running P l x p q = elim (Bool-cases (l.finished || not l.starting)) [
  | inl e ↦ subst P (sym (if_true (l.finished || not l.starting) l x e)) p
  | inr e ↦
      let (a, b) = neither l.finished l.starting e in
      subst P (sym (if_false (l.finished || not l.starting) l x e)) (q a b)
]
  where
    neither : (a b : Bool) → (a || not b) ≡ false → (a ≡ false) × (b ≡ true)
    neither a b e = ground arith

heard_response :
    (es : List Event) (c : Option Call) (l : Location) (path : Bytes) (r : ℕ)
    → IsSound es c l
    → (is_some (lookup path l.responses) || ltb (length l.responses) 8) ≡ true
    → Facts
        (response path (some r) ∷ es)
        (record l { responses = replace path (r + 1) l.responses })
heard_response es c l path r h e =
    let x = Facts-later (response path (some r)) es l h.facts in
    record {
      heard =
          replace-Heard (response path (some r) ∷ es) path (r + 1) l.responses x.heard
            (r, refl, latest);
      few = replace-few path (r + 1) l.responses x.few e;
      fixed = x.fixed;
      own = x.own;
      has_session = x.has_session;
      has_request = x.has_request;
      start_created = x.start_created;
      on_bus = x.on_bus;
      returned = x.returned;
    }

-- The phase does not look at the answers to requests, nor at the coordinates.
Phase-responses :
    (c : Option Call) (l : Location) (t : Table) → Phase c l → Phase c (record l { responses = t })
Phase-responses none l t p = p
Phase-responses (some get_bus) l t p = p
Phase-responses (some (create_session token)) l t p = p
Phase-responses (some (start session token)) l t p = p

Phase-fix :
    (c : Option Call) (l : Location) (a b : Double)
    → Phase c l
    → Phase c (record l { latitude = a; longitude = b; have_fix = true })
Phase-fix none l a b p = p
Phase-fix (some get_bus) l a b p = p
Phase-fix (some (create_session token)) l a b p = p
Phase-fix (some (start session token)) l a b p = p

pub response_signal-IsSound :
    (es : List Event) (c : Option Call) (l : Location) (path : Bytes) (code : Option ℕ)
    → IsSound es c l
    → IsSound (response path code ∷ es) c (response_signal l path code)
unfolding response_signal
response_signal-IsSound es c l path none h = later (response path none) es c l h
response_signal-IsSound es c l path (some r) h =
    unless_running (IsSound (response path (some r) ∷ es) c) l _ kept (λ running _.
      elim (Bool-cases
        (leb r 2 && (is_some (lookup path l.responses) || ltb (length l.responses) 8))) [
          | inr e ↦ subst (IsSound (response path (some r) ∷ es) c) (sym (if_false _ _ l e)) kept
          | inl e ↦ subst (IsSound (response path (some r) ∷ es) c) (sym (if_true _ _ l e)) (
              maybe_finish-IsSound (response path (some r) ∷ es) c
                (record l { responses = replace path (r + 1) l.responses })
                (heard_response es c l path r h (right (leb r 2) _ e))
                (Phase-responses c l (replace path (r + 1) l.responses) h.phase) running
                (running-fails l h.judged running))
        ])
  where
    kept : IsSound (response path (some r) ∷ es) c l
    kept = later (response path (some r)) es c l h

    right : (a b : Bool) → (a && b) ≡ true → b ≡ true
    right true b e = e
    right false b e = absurd (false≢true e)

same_path-session : (path : Bytes) (o : Option Bytes) → same_path path o ≡ true → o ≡ some path
same_path-session path none e = absurd (false≢true e)
same_path-session path (some s) e = ap some (sym ((same_bytes_iff path s).0 e))

fixed-Facts :
    (es : List Event) (c : Option Call) (l : Location) (path : Bytes) (a b : Double)
    → IsSound es c l
    → l.starting ≡ true
    → l.session ≡ some path
    → within a ninety ≡ true
    → within b hundred_eighty ≡ true
    → Facts
        (location_updated (some (path, some a, some b)) ∷ es)
        (record l { latitude = a; longitude = b; have_fix = true })
fixed-Facts es c l path a b h s e f g =
    let x = Facts-later (location_updated (some (path, some a, some b))) es l h.facts in
    record {
      heard = x.heard;
      few = x.few;
      fixed = λ _. (path, e, latest, (within-le a ninety f, within-le b hundred_eighty g), s);
      own = x.own;
      has_session = x.has_session;
      has_request = x.has_request;
      start_created = x.start_created;
      on_bus = x.on_bus;
      returned = x.returned;
    }

located-IsSound :
    (es : List Event) (c : Option Call) (l : Location) (path : Bytes) (a b : Option Double)
    → IsSound es c l
    → l.finished ≡ false
    → l.starting ≡ true
    → IsSound (location_updated (some (path, a, b)) ∷ es) c (located l path a b)
located-IsSound es c l path none b h r s = later _ es c l h
located-IsSound es c l path (some a) none h r s = later _ es c l h
located-IsSound es c l path (some a) (some b) h r s = elim (Bool-cases accepted) [
  | inr e ↦ subst (IsSound es' c) (sym (if_false accepted _ l e)) (later _ es c l h)
  | inl e ↦
      let (p, q, t, _) = parts _ _ _ _ e in
      subst (IsSound es' c) (sym (if_true accepted _ l e)) (
        maybe_finish-IsSound es' c (record l { latitude = a; longitude = b; have_fix = true })
          (fixed-Facts es c l path a b h s (same_path-session path l.session p) q t)
          (Phase-fix c l a b h.phase) r (running-fails l h.judged r))
]
  where
    es' : List Event
    es' = location_updated (some (path, some a, some b)) ∷ es

    accepted : Bool
    accepted =
        same_path path l.session && within a ninety && within b hundred_eighty && not l.have_fix

    parts :
        (p q t u : Bool)
        → (p && q && t && not u) ≡ true
        → (p ≡ true) × (q ≡ true) × (t ≡ true) × (u ≡ false)
    parts p q t u e = ground arith

pub location_signal-IsSound :
    (es : List Event) (c : Option Call) (l : Location)
    (values : Option (Bytes × Option Double × Option Double))
    → IsSound es c l
    → IsSound (location_updated values ∷ es) c (location_signal l values)
unfolding location_signal
location_signal-IsSound es c l none h = later _ es c l h
location_signal-IsSound es c l (some (path, a, b)) h =
    unless_running (IsSound (location_updated (some (path, a, b)) ∷ es) c) l _ (later _ es c l h)
      (λ r s. located-IsSound es c l path a b h r s)

pub closed-IsSound :
    (e : Event) (es : List Event) (c : Option Call) (l : Location) (path : Bytes)
    → IsSound es c l
    → IsSound (e ∷ es) c (session_closed l path)
unfolding session_closed
closed-IsSound e es c l path h =
    either (IsSound (e ∷ es) c) (same_path path l.session) _ l
      (unavailable-IsSound (e ∷ es) c l (later e es c l h)) (later e es c l h)

-- A callback of a call that finds the helper ended changes nothing.
pub unless_ended :
    (es : List Event) (c : Option Call) (l : Location) (x : Location × Option Call)
    → IsSound es c l
    → (l.finished ≡ false → IsSound es x.1 x.0)
    → (let y = if l.finished then (l, none) else x in IsSound es y.1 y.0)
unless_ended es c l x h k = elim (Bool-cases l.finished) [
  | inl e ↦
      subst (λ (y : Location × Option Call). IsSound es y.1 y.0)
        (sym (if_true l.finished (l, none) x e))
        (record { facts = h.facts; judged = h.judged; phase = tt })
  | inr e ↦
      subst (λ (y : Location × Option Call). IsSound es y.1 y.0)
        (sym (if_false l.finished (l, none) x e)) (k e)
]
