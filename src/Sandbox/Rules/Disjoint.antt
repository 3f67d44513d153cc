-- ===== src/Sandbox/Rules/Disjoint.antt =====
-- No path is both in a writable tree and in a trusted one (app/main_sandbox.c).
use mathlib.Core.Option.{some-injective}
use whitenoise_linux.Base.{
  length-append, unless_some, guarded_some, ℕ, ◌≤◌, ◌+◌, List, [], ◌∷◌, ◌++◌, Bytes, Bool, true,
  false, Option, none, some, ◌==◌, ◌&&◌, ◌||◌, if◌then◌else◌, codes, same_bytes, length, All, ◌≡◌,
  refl, sym, subst, arith,
}
use whitenoise_linux.Sandbox.Rules.{
  Rule, within, writes, overlaps, against, Verdict, present, refused, fresh, Resolved, resolved,
  missing, unresolved, entered, differ, add, rule_max, writable, Grant, tree, writable_tree,
  granted, grant_all, and_then, is_protected, protected,
}
use whitenoise_linux.Sandbox.Rules.Chain.{within-chain}

-- Two rules with a tree inside the other are both writable, or neither.
abbrev Agrees : Rule → Rule → Type 0
Agrees r s =
    (within s.path r.path || within r.path s.path) ≡ true
    → writes r.permissions ≡ writes s.permissions

abbrev IsSeparate : List Rule → Type 0
IsSeparate [] = Unit
IsSeparate (r ∷ rules) = All (λ (s : Rule). Agrees r s) rules × IsSeparate rules

overlaps-Agrees :
    (r : Rule) (path permissions : Bytes)
    → overlaps r path permissions ≡ false
    → Agrees r (record { path = path; permissions = permissions })
unfolding overlaps
overlaps-Agrees r path permissions e = same (writes permissions) (writes r.permissions) _ e
  where
    same : (a b c : Bool) → (differ a b && c) ≡ false → c ≡ true → b ≡ a
    same a b c h k = ground arith

-- A rule behind the loop agrees with all before it.
against-Agrees :
    (rules : List Rule) (path permissions : Bytes)
    → against rules path permissions ≡ fresh
    → All (λ (r : Rule). Agrees r (record { path = path; permissions = permissions })) rules
unfolding against
against-Agrees [] path permissions e = tt
against-Agrees (r ∷ rules) path permissions e =
    let (a, k) = past (same_bytes r.path path) (same_bytes r.permissions permissions) _ _ e in
    (overlaps-Agrees r path permissions a, against-Agrees rules path permissions k)
  where
    past :
        (a b c : Bool) (v : Verdict)
        → (if a then if b then present else refused else if c then refused else v) ≡ fresh
        → (c ≡ false) × (v ≡ fresh)
    past true true c v h = cc
    past true false c v h = cc
    past false b true v h = cc
    past false b false v h = (refl, h)

IsSeparate-snoc :
    (rules : List Rule) (n : Rule)
    → IsSeparate rules
    → All (λ (r : Rule). Agrees r n) rules
    → IsSeparate (rules ++ n ∷ [])
IsSeparate-snoc [] n h k = (tt, tt)
IsSeparate-snoc (r ∷ rules) n (a, h) (b, k) = (with_last rules a, IsSeparate-snoc rules n h k)
  where
    with_last :
        (ss : List Rule)
        → All (λ (s : Rule). Agrees r s) ss
        → All (λ (s : Rule). Agrees r s) (ss ++ n ∷ [])
    with_last [] x = (b, tt)
    with_last (s ∷ ss) (y, x) = (y, with_last ss x)

below_max : (n m : ℕ) → n ≤ rule_max → (n == rule_max) ≡ false → m ≡ n + 1 → m ≤ rule_max
below_max n m h full e = ground arith

-- The table: its trees are separate, and it has room for its rules.
pub record IsTable (rules : List Rule) : Type 0 where
  pub separate : IsSeparate rules
  pub limited : length rules ≤ rule_max

entered-IsTable :
    (rules : List Rule) (path permissions : Bytes) (v : Verdict) (more : List Rule)
    → IsTable rules
    → against rules path permissions ≡ v
    → entered rules path permissions v ≡ some more
    → IsTable more
entered-IsTable rules path permissions present more h a e =
    subst IsTable (some-injective rules more e) h
entered-IsTable rules path permissions refused more h a e = cc
entered-IsTable rules path permissions fresh more h a e =
    let (full, k) = unless_some (length rules == rule_max) _ more e in
    subst IsTable (some-injective _ more k) (record {
      separate = IsSeparate-snoc rules _ h.separate (against-Agrees rules path permissions a);
      limited =
          below_max (length rules) _ h.limited full
            (length-append rules (record { path = path; permissions = permissions } ∷ []));
    })

pub add-IsTable :
    (rules : List Rule) (answer : Resolved) (permissions : Bytes) (optional : Bool)
    (more : List Rule)
    → IsTable rules
    → add rules answer permissions optional ≡ some more
    → IsTable more
unfolding add
add-IsTable rules unresolved permissions optional more h e = cc
add-IsTable rules missing permissions optional more h e =
    let (_, k) = guarded_some optional (some rules) more e in
    subst IsTable (some-injective rules more k) h
add-IsTable rules (resolved path) permissions optional more h e =
    entered-IsTable rules path permissions (against rules path permissions) more h refl e

granted-IsTable :
    (rules : List Rule) (g : Grant) (more : List Rule)
    → IsTable rules
    → granted rules g ≡ some more
    → IsTable more
unfolding granted writable
granted-IsTable rules (tree answer permissions optional) more h e =
    add-IsTable rules answer permissions optional more h e
granted-IsTable rules (writable_tree path home answer) more h e =
    let (_, k) = unless_some (within home path) _ more e in
    let (_, m) = unless_some (is_protected path protected) _ more k in
    add-IsTable rules answer (codes "rwc") false more h m

grant_all-IsTable :
    (rules : List Rule) (grants : List Grant) (more : List Rule)
    → IsTable rules
    → grant_all rules grants ≡ some more
    → IsTable more
unfolding grant_all
grant_all-IsTable rules [] more h e = subst IsTable (some-injective rules more e) h
grant_all-IsTable rules (g ∷ grants) more h e =
    step (granted rules g) refl (λ next k. grant_all-IsTable next grants more k) e
  where
    step :
        (o : Option (List Rule))
        → granted rules g ≡ o
        → ((next : List Rule) → IsTable next → grant_all next grants ≡ some more → IsTable more)
        → and_then o (λ next. grant_all next grants) ≡ some more
        → IsTable more
    step none q rest k = cc
    step (some next) q rest k = rest next (granted-IsTable rules g next h q) k

-- Two rules that both grant a path.
abbrev pub SameOn : Bytes → Rule → Rule → Type 0
SameOn path r s =
    within path r.path ≡ true
    → within path s.path ≡ true
    → writes r.permissions ≡ writes s.permissions

abbrev pub AllPairs : (Rule → Rule → Type 0) → List Rule → Type 0
AllPairs R rules = All (λ (r : Rule). All (λ (s : Rule). R r s) rules) rules

IsSeparate-SameOn :
    (path : Bytes) (rules : List Rule) → IsSeparate rules → AllPairs (SameOn path) rules
IsSeparate-SameOn path [] h = tt
IsSeparate-SameOn path (r ∷ rules) (a, h) =
    ((λ _ _. refl, row rules a), column rules rules a (IsSeparate-SameOn path rules h))
  where
    row :
        (ss : List Rule)
        → All (λ (s : Rule). Agrees r s) ss
        → All (λ (s : Rule). SameOn path r s) ss
    row [] x = tt
    row (s ∷ ss) (y, x) = (λ p q. y (within-chain path r.path s.path p q), row ss x)

    column :
        (whole ss : List Rule)
        → All (λ (s : Rule). Agrees r s) ss
        → All (λ (s : Rule). All (λ (t : Rule). SameOn path s t) whole) ss
        → All (λ (s : Rule). All (λ (t : Rule). SameOn path s t) (r ∷ whole)) ss
    column whole [] x z = tt
    column whole (s ∷ ss) (y, x) (w, z) =
        ((λ p q. sym (y (within-chain path r.path s.path q p)), w), column whole ss x z)

-- Whatever is granted in whatever order, where no grant fails: there are at most 128 rules, and of any
-- two rules that cover one path, both let it be written or neither does, so that no path is in a
-- writable tree and in a trusted one.
pub grant_all-AreDisjoint :
    (grants : List Grant) (rules : List Rule)
    → grant_all [] grants ≡ some rules
    → (length rules ≤ rule_max) × ((path : Bytes) → AllPairs (SameOn path) rules)
grant_all-AreDisjoint grants rules e =
    let h = grant_all-IsTable [] grants rules (record { separate = tt; limited = omega arith }) e in
    (h.limited, λ path. IsSeparate-SameOn path rules h.separate)
