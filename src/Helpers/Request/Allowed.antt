-- ===== src/Helpers/Request/Allowed.antt =====
-- What the launcher starts, whatever bytes come (app/helper_broker.c).
use mathlib.Core.List.{Mem, mem-cons_self, mem-cons_of_mem}
use mathlib.Core.Option.{some-injective}
use whitenoise_linux.Base.Results.{
  ok, err, or_error, ok-injective, >>=-eq-ok, guard-eq-ok, or_error-eq-ok, eperm, einval,
}
use whitenoise_linux.Base.{
  ℕ, ◌+◌, ◌%◌, ◌<◌, List, [], ◌∷◌, Bytes, Bool, true, false, not, Option, none, some, ltb, leb,
  ◌==◌, ◌&&◌, ◌||◌, codes, same_bytes, same_bytes_iff, length, take, drop, All, ◌≡◌, refl, sym, ap,
  ◌∙◌, arith, inl, inr, Bool-cases, if_true, if_false, subst,
}
use whitenoise_linux.Broker.Strings.{strnlen, split, IsText, split-found}
use whitenoise_linux.Broker.Channel.{Channel, transfer}
use whitenoise_linux.Helpers.Freeze.{
  HelperKind, decoder, pdf, font, optional, Helper, Frozen, arg_bytes,
}
use whitenoise_linux.Helpers.Request.{
  Launch, IsRegular, request_in, find_helper, launch_of, admit, arg_count, right_count,
  fixed_arguments,
}

-- The arguments that a helper of each kind may get.
abbrev pub IsAllowed : Frozen → ℕ → IsRegular → HelperKind → List Bytes → Type 0
IsAllowed f mask regular decoder arguments = arguments ≡ []
IsAllowed f mask regular pdf arguments = arguments ≡ f.font_root ∷ []
IsAllowed f mask regular font arguments =
    (arguments ≡ codes "--stdin" ∷ []) × (mask % 2 ≡ 1) × (regular ≡ true)
IsAllowed f mask regular optional arguments = All IsText arguments × (length arguments < arg_count)

-- A launch that the launcher may do.
pub record IsLaunch (f : Frozen) (mask : ℕ) (regular : IsRegular) (launch : Launch) : Type 0 where
  pub known : Mem launch.helper f.helpers
  pub arguments : List Bytes
  pub argv : launch.argv ≡ launch.helper.executable ∷ arguments
  pub allowed : IsAllowed f mask regular launch.helper.kind arguments

find_helper-Mem :
    (path : Bytes) (hs : List Helper) (h : Helper) → find_helper path hs ≡ some h → Mem h hs
unfolding find_helper
find_helper-Mem path [] h e = cc
find_helper-Mem path (x ∷ hs) h e = elim (Bool-cases (same_bytes path x.requested)) [
  | inl same ↦
      subst (λ (y : Helper). Mem y (x ∷ hs))
        (some-injective _ _ (sym (if_true (same_bytes path x.requested) (some x) _ same) ∙ e))
        mem-cons_self
  | inr other ↦ mem-cons_of_mem x (
      find_helper-Mem path hs h (sym (if_false (same_bytes path x.requested) (some x) _ other) ∙ e))
]

one_of :
    (arguments : List Bytes) (count : ℕ)
    → length arguments ≡ count
    → (count == 1) ≡ true
    → (a : Bytes) × (arguments ≡ a ∷ [])
one_of [] count n e = absurd (ground (arith, n, e))
one_of (a ∷ []) count n e = (a, refl)
one_of (a ∷ b ∷ arguments) count n e = absurd (ground (arith, n, e))

fixed_arguments-IsAllowed :
    (f : Frozen) (mask : ℕ) (regular : IsRegular) (kind : HelperKind) (count : ℕ)
    (arguments fixed : List Bytes)
    → All IsText arguments
    → length arguments ≡ count
    → count < arg_count
    → right_count kind count ≡ true
    → fixed_arguments kind f.font_root mask regular arguments ≡ ok fixed
    → IsAllowed f mask regular kind fixed
unfolding fixed_arguments right_count
fixed_arguments-IsAllowed f mask regular decoder count [] fixed t n few right e =
    sym (ok-injective _ _ e)
fixed_arguments-IsAllowed f mask regular decoder count (a ∷ arguments) fixed t n few right e =
    absurd (ground (arith, n, right))
fixed_arguments-IsAllowed f mask regular pdf count [] fixed t n few right e =
    absurd (ground (arith, n, right))
fixed_arguments-IsAllowed f mask regular pdf count (a ∷ []) fixed t n few right e =
    sym (ok-injective _ _ e)
fixed_arguments-IsAllowed f mask regular pdf count (a ∷ b ∷ arguments) fixed t n few right e =
    absurd (ground (arith, n, right))
fixed_arguments-IsAllowed f mask regular font count [] fixed t n few right e =
    absurd (ground (arith, n, right))
fixed_arguments-IsAllowed f mask regular font count (a ∷ []) fixed t n few right e =
    elim (Bool-cases (not (same_bytes a (codes "--stdin")) || mask % 2 == 0 || not regular)) [
      | inl bad ↦ cc (sym (if_true _ (err einval) (ok (a ∷ [])) bad) ∙ e)
      | inr good ↦
          let (same, input, file) =
            all_false (same_bytes a (codes "--stdin")) (mask % 2 == 0) regular good in
          (
            sym (ok-injective _ _ (sym (if_false _ (err einval) (ok (a ∷ [])) good) ∙ e))
                ∙ ap (λ (x : Bytes). x ∷ []) ((same_bytes_iff a (codes "--stdin")).0 same),
            ground (arith, input),
            file,
          )
    ]
  where
    all_false :
        (x y z : Bool) → (not x || y || not z) ≡ false → (x ≡ true) × (y ≡ false) × (z ≡ true)
    all_false true false true e = (refl, refl, refl)
    all_false false y z e = cc
    all_false true true z e = cc
    all_false true false false e = cc
fixed_arguments-IsAllowed f mask regular font count (a ∷ b ∷ arguments) fixed t n few right e =
    absurd (ground (arith, n, right))
fixed_arguments-IsAllowed f mask regular optional count arguments fixed t n few right e =
    subst (λ (x : List Bytes). All IsText x × (length x < arg_count)) (ok-injective _ _ e)
      (t, omega (arith, n))

launch_of-IsLaunch :
    (f : Frozen) (mask : ℕ) (regular : IsRegular) (h : Helper) (count : ℕ) (block : Bytes)
    (found : Option (List Bytes × Bytes)) (launch : Launch)
    → Mem h f.helpers
    → count < arg_count
    → split count block ≡ found
    → launch_of f mask regular h count found ≡ ok launch
    → IsLaunch f mask regular launch
unfolding launch_of
launch_of-IsLaunch f mask regular h count block none launch m few s e = cc
launch_of-IsLaunch f mask regular h count block (some (arguments, left)) launch m few s e =
    let (right, e₁) = guard-eq-ok (length left == 0 && right_count h.kind count) einval _ e in
    let (fixed, e₂, e₃) =
      >>=-eq-ok (fixed_arguments h.kind f.font_root mask regular arguments) _ e₁ in
    let (whole, counted, texts) = split-found count block left arguments s in
    subst (IsLaunch f mask regular) (ok-injective _ launch e₃) (record {
      known = m;
      arguments = fixed;
      argv = refl;
      allowed =
          fixed_arguments-IsAllowed f mask regular h.kind count arguments fixed texts counted few
            (second (length left == 0) (right_count h.kind count) right) e₂;
    })
  where
    second : (x y : Bool) → (x && y) ≡ true → y ≡ true
    second true y e = e
    second false y e = cc

-- Whatever bytes come, the launcher starts nothing but one of the frozen helpers, by its own
-- executable: a decoder without arguments, the PDF helper with the frozen font directory, the font
-- helper with `--stdin` and a regular file as its input, and any other with fewer than 64 strings.
pub admit-IsLaunch :
    (f : Frozen) (mask : ℕ) (regular : IsRegular) (c : Channel) (launch : Launch)
    → admit f mask regular c ≡ ok launch
    → IsLaunch f mask regular launch
unfolding admit
admit-IsLaunch f mask regular c launch e =
    let ((header, c₁), e₁, k₁) = >>=-eq-ok (or_error einval (transfer c 8)) _ e in
    let r = request_in header in
    let (limits, k₂) =
      guard-eq-ok (not (leb arg_count r.count || r.bytes == 0 || ltb arg_bytes r.bytes)) einval _
        k₁ in
    let ((block, c₂), e₃, k₃) = >>=-eq-ok (or_error einval (transfer c₁ r.bytes)) _ k₂ in
    let l = strnlen block r.bytes in
    let (inside, k₄) = guard-eq-ok (not (l == r.bytes)) einval _ k₃ in
    let (h, e₅, k₅) = >>=-eq-ok (or_error eperm (find_helper (take l block) f.helpers)) _ k₄ in
    launch_of-IsLaunch f mask regular h r.count (drop (l + 1) block) _ launch
      (find_helper-Mem (take l block) f.helpers h (or_error-eq-ok eperm _ e₅))
      (ground (arith, limits)) refl k₅
