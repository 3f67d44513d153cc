-- ===== src/Location/Events/Published.antt =====
-- What the location helper (app/location.c) prints, when it ends, and what it closes behind it.
use mathlib.Core.Option.{some-injective}
use whitenoise_linux.Base.{
  ℕ, ◌+◌, List, [], ◌∷◌, Bytes, true, Option, some, same_bytes, same_bytes_iff, All, ◌≡◌, sym,
  subst, ◌∙◌, arith, Bool-cases, inl, inr, if_true, if_false, guarded_some,
}
use whitenoise_linux.Location.{Location, lookup, lookup_request, Table, Double, printed}
use whitenoise_linux.Location.Events.{
  Event, Happened, response, location_updated, session_answer, start_answer, run,
}
use whitenoise_linux.Location.Events.Permitted.{Facts, Heard, IsOnGlobe}
use whitenoise_linux.Location.Events.Calls.{run-IsSound}

-- What is found in the table has been heard for that path.
lookup-Heard :
    (es : List Event) (key : Bytes) (t : Table) (value : ℕ)
    → All (λ (row : Bytes × ℕ). Heard es row) t
    → lookup key t ≡ some value
    → Heard es (key, value)
unfolding lookup
lookup-Heard es key [] value h e = cc
lookup-Heard es key ((path, other) ∷ t) value (x, h) e = elim (Bool-cases (same_bytes key path)) [
  | inl s ↦
      let found = sym (if_true (same_bytes key path) (some other) _ s) ∙ e in
      subst (λ (p : Bytes). Heard es (p, value)) (sym ((same_bytes_iff key path).0 s))
        (subst (λ (v : ℕ). Heard es (path, v)) (some-injective other value found) x)
  | inr s ↦
      lookup-Heard es key t value h (sym (if_false (same_bytes key path) (some other) _ s) ∙ e)
]

-- Coordinates on the globe that came, by then, from the portal, in the session that it created, when
-- it had answered 0, by then, to the request that Start returned.
pub record IsPermitted (es : List Event) (latitude longitude : Double) : Type 0 where
  pub request : Bytes
  pub returned : Happened (start_answer (some request)) es
  pub granted : Happened (response request (some 0)) es
  pub session : Bytes
  pub created : Happened (session_answer (some session)) es
  pub updated : Happened (location_updated (some (session, some latitude, some longitude))) es
  pub on_globe : IsOnGlobe latitude longitude

same_some : {A : Type 0} (o : Option A) (a b : A) → o ≡ some a → o ≡ some b → a ≡ b
same_some o a b e f = some-injective a b (sym e ∙ f)

granted-Happened :
    (es : List Event) (l : Location)
    → Facts es l
    → l.start_returned ≡ true
    → lookup_request l.request l.responses ≡ some 1
    → (p : Bytes) × Happened (start_answer (some p)) es × Happened (response p (some 0)) es
granted-Happened es l x s e =
    let (p, q, returned) = x.returned s in
    let (r, v, heard) =
      lookup-Heard es p l.responses 1 x.heard
        (subst (λ (o : Option Bytes). lookup_request o l.responses ≡ some 1) q e) in
    (p, returned, subst (λ (n : ℕ). Happened (response p (some n)) es) (r_zero r v) heard)
  where
    r_zero : (r : ℕ) → 1 ≡ r + 1 → r ≡ 0
    r_zero r v = omega arith

success-IsPermitted :
    (es : List Event)
    → (run es).location.success ≡ true
    → IsPermitted es (run es).location.latitude (run es).location.longitude
success-IsPermitted es e =
    let h = run-IsSound es in
    let l = (run es).location in
    let a = h.judged.published e in
    let (p, returned, granted) = granted-Happened es l h.facts a.answered a.granted in
    let (s, q, updated, globe, starting) = h.facts.fixed a.fix in
    let (s', q', created) = h.facts.own starting in
    record {
      request = p;
      returned = returned;
      granted = granted;
      session = s;
      created =
          subst (λ (t : Bytes). Happened (session_answer (some t)) es)
            (same_some l.session s' s q' q) created;
      updated = updated;
      on_globe = globe;
    }

-- Whatever events come in whatever order, coordinates that the helper prints are on the globe and
-- finite, and come from an update of the session that the portal created for it, and the portal had
-- answered 0, which is consent, to the very request that Start returned.
pub printed-IsPermitted :
    (es : List Event) (a b : Double) → printed (run es).location ≡ some (a, b) → IsPermitted es a b
unfolding printed
printed-IsPermitted es a b e =
    let l = (run es).location in
    let (s, f) = guarded_some l.success (some (l.latitude, l.longitude)) (a, b) e in
    subst (λ (x : Double × Double). IsPermitted es x.0 x.1) (some-injective _ _ f)
      (success-IsPermitted es s)
