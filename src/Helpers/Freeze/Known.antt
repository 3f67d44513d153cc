-- ===== src/Helpers/Freeze/Known.antt =====
-- The helpers that are frozen are known ones, each once (app/helper_broker.c).
use mathlib.Core.Bool.{false≢true}
use whitenoise_linux.Base.Results.{
  Result, ok, err, ok-injective, >>=-eq-ok, unless_ok, eperm, einval,
}
use whitenoise_linux.Base.{
  ℕ, suc, ap, codes, ◌⊎◌, ◌+◌, ◌≤◌, ◌<◌, List, [], ◌∷◌, ◌++◌, Bytes, Bool, true, false, Option,
  none, some, ltb, ◌==◌, ◌||◌, same_bytes, same_bytes_iff, length, take, All, ◌≡◌, ◌≢◌, refl, sym,
  ◌∙◌, arith, inl, inr, Bool-cases, length-append, length-take, if_true, if_false, subst,
}
use whitenoise_linux.Broker.Strings.{strnlen, base_name}
use whitenoise_linux.Helpers.Freeze.{
  HelperKind, decoder, pdf, font, optional, Helper, Frozen, Realpath, helper_names, helper_count,
  path_max, index_of, kind_of, has_name, font_root_of, with_executable, freeze_helper, freeze_loop,
  freeze_helpers,
}

-- No two helpers have one name.
abbrev pub HaveNames : List Helper → Type 0
HaveNames [] = Unit {0}
HaveNames (h ∷ hs) =
    All (λ (k : Helper). base_name h.requested ≢ base_name k.requested) hs × HaveNames hs

-- The helpers that there are, each with its kind.
abbrev pub known_kinds : List (Bytes × HelperKind)
known_kinds =
    (codes "wn-image", decoder)
    ∷ (codes "wn-archive", decoder)
    ∷ (codes "wn-mesh", decoder)
    ∷ (codes "wn-fbx", decoder)
    ∷ (codes "wn-math", decoder)
    ∷ (codes "wn-nes", decoder)
    ∷ (codes "wn-pdf", pdf)
    ∷ (codes "wn-font", font)
    ∷ (codes "wn-stt", optional)
    ∷ (codes "wn-tts", optional)
    ∷ (codes "wn-translate", optional)
    ∷ (codes "wn-webview", optional)
    ∷ []

-- One of these rows.
abbrev pub IsRow : Bytes → HelperKind → List (Bytes × HelperKind) → Type 0
IsRow name kind [] = ⊥
IsRow name kind ((n, k) ∷ rows) = ((name ≡ n) × (kind ≡ k)) ⊎ IsRow name kind rows

abbrev pub row_names : List (Bytes × HelperKind) → List Bytes
row_names [] = []
row_names ((n, k) ∷ rows) = n ∷ row_names rows

-- The kinds of the rows are those of their places, counted from `start`.
abbrev AreKinds : ℕ → List (Bytes × HelperKind) → Type 0
AreKinds start [] = Unit {0}
AreKinds start ((n, k) ∷ rows) = (kind_of start ≡ k) × AreKinds (suc start) rows

index_of-IsRow :
    (name : Bytes) (start : ℕ) (rows : List (Bytes × HelperKind))
    → AreKinds start rows
    → index_of name (row_names rows) < length (row_names rows)
    → IsRow name (kind_of (start + index_of name (row_names rows))) rows
unfolding index_of
index_of-IsRow name start [] k h = absurd (omega (arith, h))
index_of-IsRow name start ((n, kind) ∷ rows) (q, k) h = elim (Bool-cases (same_bytes name n)) [
  | inl e ↦
      let here = if_true (same_bytes name n) 0 (suc (index_of name (row_names rows))) e in
      inl (
        (same_bytes_iff name n).0 e,
        ap (λ (i : ℕ). kind_of (start + i)) here ∙ ap kind_of (start_zero start) ∙ q,
      )
  | inr e ↦
      let there = if_false (same_bytes name n) 0 (suc (index_of name (row_names rows))) e in
      inr (
        subst (λ (i : ℕ). IsRow name (kind_of i) rows) (start_suc start _ _ there)
          (index_of-IsRow name (suc start) rows k (omega (arith, there, h))))
]
  where
    start_zero : (s : ℕ) → s + 0 ≡ s
    start_zero s = omega arith

    start_suc : (s i j : ℕ) → j ≡ suc i → suc s + i ≡ s + j
    start_suc s i j e = omega (arith, e)

known_kind :
    (name : Bytes)
    → index_of name helper_names < helper_count
    → IsRow name (kind_of (index_of name helper_names)) known_kinds
unfolding kind_of
known_kind name h =
    subst (λ (i : ℕ). IsRow name (kind_of i) known_kinds) (from_zero (index_of name helper_names))
      (index_of-IsRow name 0 known_kinds
        (
          refl,
          (
            refl,
            (refl, (refl, (refl, (refl, (refl, (refl, (refl, (refl, (refl, (refl, tt)))))))))),
          ),
        )
        h)
  where
    from_zero : (n : ℕ) → 0 + n ≡ n
    from_zero n = omega arith

-- A helper with a name of the list, the kind that goes with it, and the executable that realpath gave.
pub record IsKnown (realpath : Realpath) (h : Helper) : Type 0 where
  pub kind : IsRow (base_name h.requested) h.kind known_kinds
  pub resolved : realpath h.requested ≡ ok h.executable

abbrev AreKnown : Realpath → List Helper → Type 0
AreKnown realpath hs = All (IsKnown realpath) hs × HaveNames hs

All-last {κ} :
    {A : Type 0} (P : A → Type κ) (xs : List A) (x : A) → All P xs → P x → All P (xs ++ x ∷ [])
All-last P [] x h p = (p, tt)
All-last P (y ∷ xs) x (q, h) p = (q, All-last P xs x h p)

has_name-All :
    (name : Bytes) (hs : List Helper)
    → has_name name hs ≡ false
    → All (λ (h : Helper). base_name h.requested ≢ name) hs
unfolding has_name
has_name-All name [] e = tt
has_name-All name (h ∷ hs) e = (
  λ same. absurd (
      false≢true (
        sym (first (same_bytes name (base_name h.requested)) (has_name name hs) e)
        ∙ (same_bytes_iff name (base_name h.requested)).1 (sym same))),
  has_name-All name hs (second (same_bytes name (base_name h.requested)) (has_name name hs) e),
)
  where
    first : (x y : Bool) → (x || y) ≡ false → x ≡ false
    first false y h = refl
    first true y h = cc

    second : (x y : Bool) → (x || y) ≡ false → y ≡ false
    second false y h = h
    second true y h = cc

HaveNames-last :
    (hs : List Helper) (h : Helper)
    → HaveNames hs
    → All (λ (k : Helper). base_name k.requested ≢ base_name h.requested) hs
    → HaveNames (hs ++ h ∷ [])
HaveNames-last [] h names new = (tt, tt)
HaveNames-last (k ∷ hs) h (others, names) (other, new) =
    (All-last _ hs h others other, HaveNames-last hs h names new)

index_of-le : (name : Bytes) (ns : List Bytes) → index_of name ns ≤ length ns
unfolding index_of
index_of-le name [] = omega arith
index_of-le name (n ∷ ns) = ground (arith, index_of-le name ns)

with_executable-AreKnown :
    (realpath : Realpath) (resources : Bytes) (f f' : Frozen) (path : Bytes) (found : Result Bytes)
    → AreKnown realpath f.helpers
    → realpath path ≡ found
    → index_of (base_name path) helper_names < helper_count
    → All (λ (k : Helper). base_name k.requested ≢ base_name path) f.helpers
    → with_executable realpath resources f path
        (kind_of (index_of (base_name path) helper_names))
        found
      ≡ ok f'
    → AreKnown realpath f'.helpers × (length f'.helpers ≡ length f.helpers + 1)
with_executable-AreKnown realpath resources f f' path (err n) h r listed new e = cc
with_executable-AreKnown realpath resources f f' path (ok executable) (known, names) r listed new
      e =
    let kind = kind_of (index_of (base_name path) helper_names) in
    let helper : Helper = record { requested = path; executable = executable; kind = kind } in
    let (root, e₁, e₂) = >>=-eq-ok (font_root_of realpath resources kind f.font_root) _ e in
    subst (λ (g : Frozen). AreKnown realpath g.helpers × (length g.helpers ≡ length f.helpers + 1))
      (ok-injective _ f' e₂)
      (
        (
          All-last (IsKnown realpath) f.helpers helper known
              (record { kind = known_kind (base_name path) listed; resolved = r }),
          HaveNames-last f.helpers helper names new,
        ),
        length-append f.helpers (helper ∷ []),
      )

freeze_helper-AreKnown :
    (realpath : Realpath) (resources : Bytes) (f f' : Frozen) (path : Option Bytes)
    → AreKnown realpath f.helpers
    → freeze_helper realpath resources f path ≡ ok f'
    → AreKnown realpath f'.helpers × (length f'.helpers ≡ length f.helpers + 1)
unfolding freeze_helper
freeze_helper-AreKnown realpath resources f f' none h e = cc
freeze_helper-AreKnown realpath resources f f' (some path) h e =
    let (short, e₁) = unless_ok (strnlen (path ++ 0 ∷ []) path_max == path_max) einval _ f' e in
    let (listed, e₂) =
      unless_ok (index_of (base_name path) helper_names == helper_count) eperm _ f' e₁ in
    let (new, e₃) = unless_ok (has_name (base_name path) f.helpers) einval _ f' e₂ in
    with_executable-AreKnown realpath resources f f' path (realpath path) h refl
      (ground (arith, listed, index_of-le (base_name path) helper_names))
      (has_name-All (base_name path) f.helpers new) e₃

freeze_loop-AreKnown :
    (realpath : Realpath) (resources : Bytes) (paths : List (Option Bytes)) (f f' : Frozen)
    → AreKnown realpath f.helpers
    → freeze_loop realpath resources f paths ≡ ok f'
    → AreKnown realpath f'.helpers × (length f'.helpers ≡ length f.helpers + length paths)
unfolding freeze_loop
freeze_loop-AreKnown realpath resources [] f f' h e =
    subst (λ (g : Frozen). AreKnown realpath g.helpers × (length g.helpers ≡ length f.helpers + 0))
      (ok-injective _ _ e) (h, omega arith)
freeze_loop-AreKnown realpath resources (path ∷ paths) f f' h e =
    let (g, e₁, e₂) = >>=-eq-ok (freeze_helper realpath resources f path) _ e in
    let (k, n) = freeze_helper-AreKnown realpath resources f g path h e₁ in
    let (k', n') = freeze_loop-AreKnown realpath resources paths g f' k e₂ in
    (k', omega (arith, n, n'))

-- Helpers that are frozen: known ones, without two of one name, and at most as many as there are names.
pub record AreFrozen (realpath : Realpath) (f : Frozen) : Type 0 where
  pub known : All (IsKnown realpath) f.helpers
  pub names : HaveNames f.helpers
  pub few : length f.helpers ≤ helper_count

-- Where freeze_helpers succeeds, every helper that it has frozen has a name of known_kinds with its
-- kind there, and the executable that realpath has found for its path; no two have one
-- name, and there is room for all of them in the table.
pub freeze_helpers-AreFrozen :
    (realpath : Realpath) (helpers : Option (List (Option Bytes))) (count : ℕ)
    (resources : Option Bytes) (f : Frozen)
    → freeze_helpers realpath helpers count resources ≡ ok f
    → AreFrozen realpath f
unfolding freeze_helpers
freeze_helpers-AreFrozen realpath helpers count none f e = cc
freeze_helpers-AreFrozen realpath none count (some resources) f e = elim (Bool-cases (count == 0)) [
  | inl z ↦
      subst (AreFrozen realpath)
        (ok-injective _ f (sym (if_true (count == 0) _ (err einval) z) ∙ e))
        (record { known = tt; names = tt; few = omega arith })
  | inr z ↦ cc (
      sym (if_false (count == 0) (ok (record { helpers = []; font_root = [] })) (err einval) z) ∙ e)
]
freeze_helpers-AreFrozen realpath (some paths) count (some resources) f e =
    let (few, e₁) = unless_ok (ltb helper_count count) einval _ f e in
    let ((known, names), n) =
      freeze_loop-AreKnown realpath resources (take count paths) _ f (tt, tt) e₁ in
    record { known = known; names = names; few = ground (arith, few, n, length-take count paths) }
