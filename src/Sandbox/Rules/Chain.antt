-- ===== src/Sandbox/Rules/Chain.antt =====
-- Directories that contain one path are inside each other (app/main_sandbox.c).
use mathlib.Core.Bool.{false≢true}
use whitenoise_linux.Base.{
  [], ◌∷◌, Bytes, Bool, true, false, ◌==◌, ◌&&◌, ◌||◌, codes, same_bytes, length, take, drop, ◌≡◌,
  ◌⊎◌, refl, sym, ◌∙◌, arith, inl, inr,
}
use whitenoise_linux.Sandbox.Rules.{at_end, within}

-- A directory that is a prefix of a path, up to a slash or the end.
pub below : Bytes → Bytes → Bool
below [] path = at_end path
below (c ∷ d) [] = false
below (c ∷ d) (x ∷ path) = c == x && below d path

pub within-below :
    (path directory : Bytes)
    → (same_bytes (take (length directory) path) directory && at_end (drop (length directory) path))
      ≡ below directory path
unfolding below same_bytes
within-below path [] = refl
within-below [] (c ∷ d) = refl
within-below (x ∷ path) (c ∷ d) = ground (arith, within-below path d)

-- Of two directories that a path is below, one is below the other.
pub below-chain :
    (a b path : Bytes)
    → below a path ≡ true
    → below b path ≡ true
    → (below a b ≡ true) ⊎ (below b a ≡ true)
unfolding below
below-chain [] [] path h k = inl refl
below-chain [] (e ∷ b) [] h k = absurd (false≢true k)
below-chain [] (e ∷ b) (x ∷ path) h k = inl (ground arith)
below-chain (c ∷ a) [] [] h k = absurd (false≢true h)
below-chain (c ∷ a) [] (x ∷ path) h k = inr (ground arith)
below-chain (c ∷ a) (e ∷ b) [] h k = absurd (false≢true h)
below-chain (c ∷ a) (e ∷ b) (x ∷ path) h k =
    let (p, u) = both (c == x) _ h in
    let (q, v) = both (e == x) _ k in
    elim (below-chain a b path u v) [ inl r ↦ inl (ground arith) | inr r ↦ inr (ground arith) ]
  where
    both : (p q : Bool) → (p && q) ≡ true → (p ≡ true) × (q ≡ true)
    both p q e = ground arith

pub within_cases :
    (path d : Bytes)
    → within path d ≡ true
    → (same_bytes d (codes "/") ≡ true) ⊎ (below d path ≡ true)
unfolding within
within_cases path d h = split (same_bytes d (codes "/")) _ (within-below path d) h
  where
    split : (a b : Bool) {c : Bool} → b ≡ c → (a || b) ≡ true → (a ≡ true) ⊎ (c ≡ true)
    split true b e h = inl refl
    split false b e h = inr (sym e ∙ h)

pub root-within : (path d : Bytes) → same_bytes d (codes "/") ≡ true → within path d ≡ true
unfolding within
root-within path d h = ground arith

pub within_below : (path d : Bytes) → below d path ≡ true → within path d ≡ true
unfolding within
within_below path d h = ground (arith, within-below path d)

-- Of two directories that contain a path, one contains the other.
pub within-chain :
    (path a b : Bytes)
    → within path a ≡ true
    → within path b ≡ true
    → (within b a || within a b) ≡ true
within-chain path a b h k = elim (within_cases path a h) [
  | inl r ↦ left (within b a) (within a b) (root-within b a r)
  | inr u ↦ elim (within_cases path b k) [
    | inl r ↦ right (within b a) (within a b) (root-within a b r)
    | inr v ↦ elim (below-chain a b path u v) [
      | inl w ↦ left (within b a) (within a b) (within_below b a w)
      | inr w ↦ right (within b a) (within a b) (within_below a b w)
    ]
  ]
]
  where
    left : (x y : Bool) → x ≡ true → (x || y) ≡ true
    left x y e = ground arith

    right : (x y : Bool) → y ≡ true → (x || y) ≡ true
    right x y e = ground arith
