-- ===== src/Location/Events/Permitted.antt =====
-- What the location helper (app/location.c) knows between two events, and that each callback keeps it.
use mathlib.Core.Bool.{false≢true}
use whitenoise_linux.Base.{
  ℕ, zero, suc, ◌+◌, ◌≤◌, List, [], ◌∷◌, Bytes, Bool, true, false, not, Option, none, some,
  if◌then◌else◌, length, All, ◌≡◌, refl, sym, subst, ap, ◌∙◌, arith, Bool-cases, inl, inr, if_true,
  if_false,
}
use whitenoise_linux.Location.{
  Location, LocationResult, location_unavailable, location_fix, is_fix, finish, decided,
  maybe_finish, lookup_request, within, magnitude, ninety, hundred_eighty, Table, Double,
}
use whitenoise_linux.Location.Events.{
  Event, Happened, earlier, response, location_updated, session_answer, start_answer,
}

-- Coordinates that are finite and on the globe.
abbrev pub IsOnGlobe : Double → Double → Type 0
IsOnGlobe latitude longitude =
    (magnitude latitude ≤ ninety) × (magnitude longitude ≤ hundred_eighty)

-- A number in the table is a response, plus one, that has come for that path.
abbrev pub Heard : List Event → Bytes × ℕ → Type 0
Heard es (path, value) = (r : ℕ) × (value ≡ r + 1) × Happened (response path (some r)) es

-- The coordinates come from the helper's own session.
abbrev pub IsFix : List Event → Location → Type 0
IsFix es l =
    (s : Bytes) × (l.session ≡ some s)
    × Happened (location_updated (some (s, some l.latitude, some l.longitude))) es
    × IsOnGlobe l.latitude l.longitude
    × (l.starting ≡ true)

pub record Facts (es : List Event) (l : Location) : Type 0 where
  pub heard : All (λ (row : Bytes × ℕ). Heard es row) l.responses
  pub few : length l.responses ≤ 8
  pub fixed : l.have_fix ≡ true → IsFix es l
  pub own :
      l.starting ≡ true → (s : Bytes) × (l.session ≡ some s) × Happened (session_answer (some s)) es
  pub has_session : l.creating ≡ true → (s : Bytes) × (l.session ≡ some s)
  pub has_request : l.creating ≡ true → (p : Bytes) × (l.request ≡ some p)
  pub start_created : l.starting ≡ true → l.creating ≡ true
  pub on_bus : l.creating ≡ true → l.has_bus ≡ true
  pub returned :
      l.start_returned ≡ true
      → (p : Bytes) × (l.request ≡ some p) × Happened (start_answer (some p)) es

-- What a success is: Start has returned a request, whose response is 0, and there is a fix.
pub record IsApproved (l : Location) : Type 0 where
  pub over : l.finished ≡ true
  pub answered : l.start_returned ≡ true
  pub fix : l.have_fix ≡ true
  pub granted : lookup_request l.request l.responses ≡ some 1

-- What is stored for the request leaves it open how it ends.
abbrev pub IsOpen : Bool → Option ℕ → Type 0
IsOpen fix none = Unit
IsOpen fix (some zero) = Unit
IsOpen fix (some (suc zero)) = fix ≡ false
IsOpen fix (some (suc (suc r))) = ⊥

pub record Judged (l : Location) : Type 0 where
  pub published : l.success ≡ true → IsApproved l
  pub waiting :
      l.finished ≡ false
      → l.start_returned ≡ true
      → IsOpen l.have_fix (lookup_request l.request l.responses)

-- A predicate that does not look at the end.
pub IsBlind : (Location → Type 0) → Type 0
IsBlind P = (l : Location) (f s : Bool) → P l → P (record l { finished = f; success = s })

pub either : {A : Type 0} (P : A → Type 0) (b : Bool) (x y : A) → P x → P y → P (if b then x else y)
either P true x y p q = p
either P false x y p q = q

module _ (P : Location → Type 0)
    (blind : (l : Location) (f s : Bool) → P l → P (record l { finished = f; success = s })) where
  pub finish-kept : (l : Location) (r : LocationResult) → P l → P (finish l r)
  finish-kept l r p = either P l.finished l _ p (blind l true (is_fix r) p)

  decided-kept : (l : Location) (o : Option ℕ) → P l → P (decided l o)
  decided-kept l none p = p
  decided-kept l (some zero) p = p
  decided-kept l (some (suc zero)) p =
      either P l.have_fix (finish l location_fix) l (finish-kept l location_fix p) p
  decided-kept l (some (suc (suc r))) p = finish-kept l location_unavailable p

  pub maybe_finish-kept : (l : Location) → P l → P (maybe_finish l)
  unfolding maybe_finish
  maybe_finish-kept l p =
      either P (not l.start_returned) l _ p
        (decided-kept l (lookup_request l.request l.responses) p)

pub Facts-IsBlind :
    (es : List Event) (l : Location) (f s : Bool)
    → Facts es l
    → Facts es (record l { finished = f; success = s })
Facts-IsBlind es l f s x = record {
  heard = x.heard;
  few = x.few;
  fixed = x.fixed;
  own = x.own;
  has_session = x.has_session;
  has_request = x.has_request;
  start_created = x.start_created;
  on_bus = x.on_bus;
  returned = x.returned;
}

-- Nothing that has happened is undone.
Heard-later :
    (e : Event) (es : List Event) (t : Table)
    → All (λ (row : Bytes × ℕ). Heard es row) t
    → All (λ (row : Bytes × ℕ). Heard (e ∷ es) row) t
Heard-later e es [] h = tt
Heard-later e es ((path, value) ∷ t) ((r, v, x), h) = ((r, v, earlier x), Heard-later e es t h)

pub Facts-later : (e : Event) (es : List Event) (l : Location) → Facts es l → Facts (e ∷ es) l
Facts-later e es l x = record {
  heard = Heard-later e es l.responses x.heard;
  few = x.few;
  fixed = λ h. let (s, a, b, c, d) = x.fixed h in (s, a, earlier b, c, d);
  own = λ h. let (s, a, b) = x.own h in (s, a, earlier b);
  has_session = x.has_session;
  has_request = x.has_request;
  start_created = x.start_created;
  on_bus = x.on_bus;
  returned = λ h. let (p, a, b) = x.returned h in (p, a, earlier b);
}

pub within-le : (d limit : Double) → within d limit ≡ true → magnitude d ≤ limit
unfolding within
within-le d limit h = ground arith

-- One that is over with the fix that was asked for, and one that is over without.
ended :
    (l : Location) (r : LocationResult)
    → l.finished ≡ false
    → finish l r ≡ record l { finished = true; success = is_fix r }
ended l r e = if_false l.finished l _ e

unavailable-Judged : (l : Location) → Judged (record l { finished = true; success = false })
unavailable-Judged l = record {
  published = λ h. absurd (false≢true h);
  waiting = λ h. absurd (false≢true (sym h));
}

pub finish-Judged : (l : Location) → Judged l → Judged (finish l location_unavailable)
finish-Judged l j = either Judged l.finished l _ j (unavailable-Judged l)

-- Before the end, what is stored for the request decides.
module _ (l : Location) (running : l.finished ≡ false) (failing : l.success ≡ false) where
  undecided-Judged :
      (l.start_returned ≡ true → IsOpen l.have_fix (lookup_request l.request l.responses))
      → Judged l
  undecided-Judged h = record {
    published = λ e. absurd (false≢true (sym failing ∙ e));
    waiting = λ _. h;
  }

  granted-Judged :
      l.start_returned ≡ true
      → lookup_request l.request l.responses ≡ some 1
      → Judged (if l.have_fix then finish l location_fix else l)
  granted-Judged s e = elim (Bool-cases l.have_fix) [
    | inl f ↦
        subst Judged
          (sym (if_true l.have_fix (finish l location_fix) l f ∙ ended l location_fix running))
          (record {
            published = λ _. record { over = refl; answered = s; fix = f; granted = e };
            waiting = λ h. absurd (false≢true (sym h));
          })
    | inr f ↦
        subst Judged (sym (if_false l.have_fix (finish l location_fix) l f))
          (undecided-Judged (λ _. subst (IsOpen l.have_fix) (sym e) f))
  ]

  decided-Judged :
      (o : Option ℕ)
      → l.start_returned ≡ true
      → lookup_request l.request l.responses ≡ o
      → Judged (decided l o)
  decided-Judged none s e = undecided-Judged (λ _. subst (IsOpen l.have_fix) (sym e) tt)
  decided-Judged (some zero) s e = undecided-Judged (λ _. subst (IsOpen l.have_fix) (sym e) tt)
  decided-Judged (some (suc zero)) s e = granted-Judged s e
  decided-Judged (some (suc (suc r))) s e =
      subst Judged (sym (ended l location_unavailable running)) (unavailable-Judged l)

  pub maybe_finish-Judged : Judged (maybe_finish l)
  unfolding maybe_finish
  maybe_finish-Judged = elim (Bool-cases l.start_returned) [
    | inr s ↦
        subst Judged (sym (if_true (not l.start_returned) l _ (ap not s)))
          (undecided-Judged (λ h. absurd (false≢true (sym s ∙ h))))
    | inl s ↦
        subst Judged (sym (if_false (not l.start_returned) l _ (ap not s)))
          (decided-Judged (lookup_request l.request l.responses) s refl)
  ]
