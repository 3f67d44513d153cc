-- ===== src/Update/Directory.antt =====
-- The directory that an update may be staged in (app/appimage_update_directory.h).
use mathlib.Core.Bool.{false≢true}
use mathlib.Core.Option.{some-injective}
use whitenoise_linux.Base.{
  ℕ, ◌<◌, ◌⊎◌, ◌/◌, ◌%◌, [], ◌∷◌, ◌++◌, Bytes, Bool, true, false, not, Option, none, some, ◌==◌,
  ◌&&◌, ◌||◌, if◌then◌else◌, same_bytes, same_bytes_iff, ==_iff, ◌≡◌, ◌↔◌, refl, sym, subst, ap,
  ◌∙◌, arith, append-nil, append_assoc,
}

-- What lstat fills in of struct stat.
pub record Stat : Type 0 where
  pub is_directory : Bool
  pub owner : ℕ
  pub mode : ℕ

abbrev pub has_bit : ℕ → ℕ → Bool
has_bit mode bit = mode / bit % 2 == 1

-- `ok` in the loop, for the user who runs the program: 0020 and 0002 let others write, and 01000 is the
-- sticky bit.
unfoldable pub safe : ℕ → Option Stat → Bool
safe user none = false
safe user (some s) =
    s.is_directory
    && (s.owner == 0 || s.owner == user)
    && (not (has_bit s.mode 16 || has_bit s.mode 2) || has_bit s.mode 512)

-- The loop, from `end` on: the path up to there, and the rest of it.
unfoldable pub ancestors_safe : (Bytes → Bool) → Bytes → Bytes → Bool
ancestors_safe ok front [] = ok front
ancestors_safe ok front (c ∷ rest) =
    let more = ancestors_safe ok (front ++ c ∷ []) rest in
    if c == b'/' then ok front && more else more

abbrev pub is_canonical : Bytes → Option Bytes → Bool
is_canonical path none = false
is_canonical path (some canonical) = same_bytes path canonical

-- `canonical` is realpath's answer, and `lstat` the system's.
unfoldable pub wn_appimage_private_directory :
    ℕ → (Bytes → Option Stat) → Option Bytes → Bytes → Bool
unfolding safe ancestors_safe
wn_appimage_private_directory user lstat canonical [] = false
wn_appimage_private_directory user lstat canonical (c ∷ path) =
    c == b'/'
    && is_canonical (c ∷ path) canonical
    && ancestors_safe (λ d. safe user (lstat d)) (c ∷ []) path

-- The rest of a path behind a directory: nothing, or a slash and more.
abbrev pub EndsThere : Bytes → Type 0
EndsThere [] = Unit
EndsThere (c ∷ rest) = c ≡ b'/'

-- Every directory on the way, from `front` on, and the path itself.
abbrev AllSafe : (Bytes → Bool) → Bytes → Bytes → Type 0
AllSafe ok front path =
    (d rest : Bytes) → d ++ rest ≡ path → EndsThere rest → ok (front ++ d) ≡ true

ancestors_safe-AllSafe :
    (ok : Bytes → Bool) (front path : Bytes)
    → ancestors_safe ok front path ≡ true
    → AllSafe ok front path
unfolding ancestors_safe
ancestors_safe-AllSafe ok front [] h [] rest e k =
    subst (λ (x : Bytes). ok x ≡ true) (sym (append-nil front)) h
ancestors_safe-AllSafe ok front [] h (c ∷ d) rest e k = cc
ancestors_safe-AllSafe ok front (x ∷ path) h [] [] e k = cc
ancestors_safe-AllSafe ok front (x ∷ path) h [] (r ∷ rest) e k =
    subst (λ (y : Bytes). ok y ≡ true) (sym (append-nil front))
      (first_safe (x == b'/') _ _ h (here x r (cons_head e) k))
  where
    first_safe : (a b m : Bool) → (if a then b && m else m) ≡ true → a ≡ true → b ≡ true
    first_safe a b m h e = ground arith

    here : (x r : ℕ) → r ≡ x → r ≡ b'/' → (x == b'/') ≡ true
    here x r p q = ground arith

    cons_head : {a b : ℕ} {as' bs : Bytes} → a ∷ as' ≡ b ∷ bs → a ≡ b
    cons_head e = cc
ancestors_safe-AllSafe ok front (x ∷ path) h (c ∷ d) rest e k =
    let (p, q) = parts e in
    subst (λ (y : Bytes). ok y ≡ true)
      (append_assoc front (x ∷ []) d ∙ ap (λ (y : ℕ). front ++ y ∷ d) (sym p))
      (ancestors_safe-AllSafe ok (front ++ x ∷ []) path (more_safe (x == b'/') _ _ h) d rest q k)
  where
    more_safe : (a b m : Bool) → (if a then b && m else m) ≡ true → m ≡ true
    more_safe a b m h = ground arith

    parts : {a b : ℕ} {as' bs : Bytes} → a ∷ as' ≡ b ∷ bs → (a ≡ b) × (as' ≡ bs)
    parts e = (cc, cc)

AllSafe-ancestors_safe :
    (ok : Bytes → Bool) (front path : Bytes)
    → AllSafe ok front path
    → ancestors_safe ok front path ≡ true
unfolding ancestors_safe
AllSafe-ancestors_safe ok front [] h =
    subst (λ (x : Bytes). ok x ≡ true) (append-nil front) (h [] [] refl tt)
AllSafe-ancestors_safe ok front (x ∷ path) h =
    both (x == b'/') (ok front) _
      (λ e.
        subst (λ (y : Bytes). ok y ≡ true) (append-nil front)
          (h [] (x ∷ path) refl (ground (arith, e))))
      (AllSafe-ancestors_safe ok (front ++ x ∷ []) path (λ d rest e k.
        subst (λ (y : Bytes). ok y ≡ true) (sym (append_assoc front (x ∷ []) d))
          (h (x ∷ d) rest (ap (λ (y : Bytes). x ∷ y) e) k)))
  where
    both : (a b m : Bool) → (a ≡ true → b ≡ true) → m ≡ true → (if a then b && m else m) ≡ true
    both true b m f g = ground (f refl, g, arith)
    both false b m f g = g

-- A directory that is the superuser's or the user's, and that neither its group (0020) nor others
-- (0002) may write unless it is sticky (01000).
abbrev pub IsSafe : ℕ → Option Stat → Type 0
IsSafe user none = ⊥
IsSafe user (some s) =
    (s.is_directory ≡ true)
    × ((s.owner ≡ 0) ⊎ (s.owner ≡ user))
    × (((s.mode / 16 % 2 ≡ 0) × (s.mode / 2 % 2 ≡ 0)) ⊎ (s.mode / 512 % 2 ≡ 1))

safe-IsSafe : (user : ℕ) (o : Option Stat) → (safe user o ≡ true) ↔ IsSafe user o
unfolding safe
safe-IsSafe user none = (λ e. false≢true e, λ e. absurd e)
safe-IsSafe user (some s) =
    by_parts s.is_directory s.owner (s.mode / 16 % 2) (s.mode / 2 % 2) (s.mode / 512 % 2)
      (bit_of s.mode 16) (bit_of s.mode 2)
  where
    bit_of : (mode bit : ℕ) → mode / bit % 2 < 2
    bit_of mode bit = omega arith

    by_parts :
        (d : Bool) (owner a b c : ℕ)
        → a < 2
        → b < 2
        → ((d && (owner == 0 || owner == user) && (not (a == 1 || b == 1) || c == 1)) ≡ true)
          ↔ ((d ≡ true) × ((owner ≡ 0) ⊎ (owner ≡ user)) × (((a ≡ 0) × (b ≡ 0)) ⊎ (c ≡ 1)))
    by_parts d owner a b c p q = ground (arith, p, q)

-- A path from the root that is its own canonical form, and on which every directory below the root, the
-- last included, is safe.
abbrev pub IsPrivate : ℕ → (Bytes → Option Stat) → Option Bytes → Bytes → Type 0
IsPrivate user lstat canonical [] = ⊥
IsPrivate user lstat canonical (c ∷ path) =
    (c ≡ b'/')
    × (canonical ≡ some (c ∷ path))
    × ((d rest : Bytes) → d ++ rest ≡ path → EndsThere rest → IsSafe user (lstat (c ∷ d)))

is_canonical_iff :
    (path : Bytes) (o : Option Bytes) → (is_canonical path o ≡ true) ↔ (o ≡ some path)
is_canonical_iff path none = (λ e. absurd (false≢true e), λ e. cc)
is_canonical_iff path (some canonical) = (
  λ e. ap some (sym ((same_bytes_iff path canonical).0 e)),
  λ e. (same_bytes_iff path canonical).1 (sym (some-injective canonical path e)),
)

-- A directory is accepted exactly if its path starts at the root, is canonical, and every directory on
-- it below the root, itself included, is a directory of root or of the user that is sticky or that
-- neither its group nor others can write.
pub wn_appimage_private_directory-IsPrivate :
    (user : ℕ) (lstat : Bytes → Option Stat) (canonical : Option Bytes) (path : Bytes)
    → (wn_appimage_private_directory user lstat canonical path ≡ true)
      ↔ IsPrivate user lstat canonical path
unfolding wn_appimage_private_directory
wn_appimage_private_directory-IsPrivate user lstat canonical [] = (λ e. false≢true e, λ e. absurd e)
wn_appimage_private_directory-IsPrivate user lstat canonical (c ∷ path) = (forth, back)
  where
    ok : Bytes → Bool
    ok d = safe user (lstat d)

    parts : (a b m : Bool) → (a && b && m) ≡ true → (a ≡ true) × (b ≡ true) × (m ≡ true)
    parts a b m e = ground arith

    all : (a b m : Bool) → a ≡ true → b ≡ true → m ≡ true → (a && b && m) ≡ true
    all a b m p q r = ground arith

    forth :
        (c == b'/' && is_canonical (c ∷ path) canonical && ancestors_safe ok (c ∷ []) path) ≡ true
        → IsPrivate user lstat canonical (c ∷ path)
    forth e =
        let (p, q, r) = parts _ _ _ e in
        (
          (==_iff c b'/').0 p,
          (is_canonical_iff (c ∷ path) canonical).0 q,
          λ d rest e k.
              (safe-IsSafe user (lstat (c ∷ d))).0
                (ancestors_safe-AllSafe ok (c ∷ []) path r d rest e k),
        )

    back :
        IsPrivate user lstat canonical (c ∷ path)
        → (c == b'/' && is_canonical (c ∷ path) canonical && ancestors_safe ok (c ∷ []) path) ≡ true
    back (p, q, r) = all _ _ _ ((==_iff c b'/').1 p) ((is_canonical_iff (c ∷ path) canonical).1 q) (
        AllSafe-ancestors_safe ok (c ∷ []) path
          (λ d rest e k. (safe-IsSafe user (lstat (c ∷ d))).1 (r d rest e k)))
