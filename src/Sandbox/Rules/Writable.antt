-- ===== src/Sandbox/Rules/Writable.antt =====
-- What a writable directory has passed (app/main_sandbox.c).
use mathlib.Core.Bool.{false≢true}
use mathlib.Core.Option.{some-injective}
use whitenoise_linux.Base.{
  List, [], ◌∷◌, ◌++◌, Bytes, Bool, true, false, some, ◌||◌, if◌then◌else◌, codes, same_bytes,
  same_bytes_iff, length, All, ◌==◌, ◌≡◌, ◌≢◌, ◌⊎◌, refl, sym, subst, ◌∙◌, arith, unless_some, inl,
  inr,
}
use whitenoise_linux.Sandbox.Rules.{
  Rule, within, against, present, refused, fresh, Verdict, overlaps, resolved, entered, add,
  rule_max, writable, is_protected, protected,
}

-- One of the rules is this one.
abbrev pub HasRule : Bytes → Bytes → List Rule → Type 0
HasRule path permissions [] = ⊥
HasRule path permissions (r ∷ rules) =
    ((r.path ≡ path) × (r.permissions ≡ permissions)) ⊎ HasRule path permissions rules

against-HasRule :
    (rules : List Rule) (path permissions : Bytes)
    → against rules path permissions ≡ present
    → HasRule path permissions rules
unfolding against
against-HasRule [] path permissions e = cc
against-HasRule (r ∷ rules) path permissions e =
    found (same_bytes r.path path) (same_bytes r.permissions permissions)
      (overlaps r path permissions) (λ k. against-HasRule rules path permissions k) refl refl e
  where
    found :
        (a b c : Bool)
        → (against rules path permissions ≡ present → HasRule path permissions rules)
        → same_bytes r.path path ≡ a
        → same_bytes r.permissions permissions ≡ b
        → (if a
            then if b then present else refused
            else if c
            then refused
            else against rules path permissions)
          ≡ present
        → HasRule path permissions (r ∷ rules)
    found true true c rest p q k =
        inl ((same_bytes_iff r.path path).0 p, (same_bytes_iff r.permissions permissions).0 q)
    found true false c rest p q k = cc
    found false b true rest p q k = cc
    found false b false rest p q k = inr (rest k)

HasRule-snoc :
    (rules : List Rule) (path permissions : Bytes)
    → HasRule path permissions (rules ++ record { path = path; permissions = permissions } ∷ [])
HasRule-snoc [] path permissions = inl (refl, refl)
HasRule-snoc (r ∷ rules) path permissions = inr (HasRule-snoc rules path permissions)

entered-HasRule :
    (rules : List Rule) (path permissions : Bytes) (v : Verdict) (more : List Rule)
    → against rules path permissions ≡ v
    → entered rules path permissions v ≡ some more
    → HasRule path permissions more
entered-HasRule rules path permissions present more a e =
    subst (HasRule path permissions) (some-injective rules more e)
      (against-HasRule rules path permissions a)
entered-HasRule rules path permissions refused more a e = cc
entered-HasRule rules path permissions fresh more a e =
    let (_, k) = unless_some (length rules == rule_max) _ more e in
    subst (HasRule path permissions) (some-injective _ more k) (HasRule-snoc rules path permissions)

is_protected-All :
    (path : Bytes) (ps : List Bytes)
    → is_protected path ps ≡ false
    → All (λ (p : Bytes). path ≢ p) ps
unfolding is_protected
is_protected-All path [] e = tt
is_protected-All path (p ∷ ps) e =
    let (a, b) = neither (same_bytes path p) _ e in
    (λ q. false≢true (sym a ∙ (same_bytes_iff path p).1 q), is_protected-All path ps b)
  where
    neither : (a b : Bool) → (a || b) ≡ false → (a ≡ false) × (b ≡ false)
    neither a b h = ground arith

-- A directory that writable accepts does not contain HOME and is none of the broad ones, and what it
-- resolves to is then in the table with the permissions to read, write and create.
pub writable-Passes :
    (rules : List Rule) (path home target : Bytes) (more : List Rule)
    → writable rules path home (resolved target) ≡ some more
    → (within home path ≡ false)
      × All (λ (p : Bytes). path ≢ p) protected
      × HasRule target (codes "rwc") more
unfolding writable add
writable-Passes rules path home target more e =
    let (a, k) = unless_some (within home path) _ more e in
    let (b, m) = unless_some (is_protected path protected) _ more k in
    (
      a,
      is_protected-All path protected b,
      entered-HasRule rules target (codes "rwc") (against rules target (codes "rwc")) more refl m,
    )
