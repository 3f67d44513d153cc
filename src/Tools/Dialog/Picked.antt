-- ===== src/Tools/Dialog/Picked.antt =====
-- What a file dialog hands to its callback (app/tool_broker.c).
use native.Mathlib.Nat.{le_refl}
use whitenoise_linux.Base.{
  ℕ, suc, ◌+◌, ◌<◌, List, [], ◌∷◌, ◌++◌, Bytes, Bool, true, false, not, some, ◌==◌, ◌&&◌, length,
  take, All, ◌≡◌, refl, sym, ap, ap₂, ◌∙◌, arith, inl, inr, Bool-cases, append-nil, take_all,
  if_true, if_false,
}
use whitenoise_linux.Broker.Strings.{strnlen, IsText, strnlen-long}
use whitenoise_linux.Tools.Reply.{Outcome}
use whitenoise_linux.Tools.Dialog.{
  DialogRequest, separators, is_separator, cut, in_front, c_string, c_strings, paths_of,
  without_newline, dialog_answer, output_text,
}

-- The pieces behind the first are as many as the separators that were counted for the array.
pub length-cut : (text : Bytes) → length (cut text).1 ≡ separators text
unfolding cut separators
length-cut [] = refl
length-cut (c ∷ []) = refl
length-cut (c ∷ d ∷ text) = elim (Bool-cases (is_separator c d)) [
  | inl e ↦ rw e (ap suc (length-cut text))
  | inr e ↦ rw e (length-cut (d ∷ text))
]

-- A path as GFile writes it: not empty, without two slashes in a row and without one at its end.
abbrev pub is_canonical : Bytes → Bool
is_canonical [] = false
is_canonical (c ∷ []) = not (c == b'/')
is_canonical (c ∷ d ∷ p) = not (is_separator c d) && is_canonical (d ∷ p)

-- What zenity prints for these paths, without the newline.
abbrev pub printed : Bytes → List Bytes → Bytes
printed p [] = p
printed p (q ∷ qs) = p ++ (b'/' ∷ b'/' ∷ printed q qs)

cut-path : (p : Bytes) → is_canonical p ≡ true → cut p ≡ (p, [])
unfolding cut
cut-path [] e = refl
cut-path (c ∷ []) e = refl
cut-path (c ∷ d ∷ p) e =
    if_false (is_separator c d) _ _ (ground (arith, e))
    ∙ ap (in_front c) (cut-path (d ∷ p) (ground (arith, e)))

cut-separator :
    (p rest : Bytes)
    → is_canonical p ≡ true
    → cut (p ++ (b'/' ∷ b'/' ∷ rest)) ≡ (p, (cut rest).0 ∷ (cut rest).1)
unfolding cut
cut-separator [] rest e = cc
cut-separator (c ∷ []) rest e = if_false (is_separator c b'/') _ _ (ground (arith, e))
cut-separator (c ∷ d ∷ p) rest e =
    if_false (is_separator c d) _ _ (ground (arith, e))
    ∙ ap (in_front c) (cut-separator (d ∷ p) rest (ground (arith, e)))

abbrev AreCanonical : List Bytes → Type 0
AreCanonical ps = All (λ (p : Bytes). is_canonical p ≡ true) ps

cut-printed :
    (p : Bytes) (ps : List Bytes)
    → is_canonical p ≡ true
    → AreCanonical ps
    → cut (printed p ps) ≡ (p, ps)
cut-printed p [] e h = cut-path p e
cut-printed p (q ∷ qs) e (f, h) =
    cut-separator p (printed q qs) e
    ∙ ap (λ (x : Bytes × List Bytes). (p, x.0 ∷ x.1)) (cut-printed q qs f h)

c_string-text : (p : Bytes) → IsText p → c_string p ≡ p
c_string-text p t =
    ap (λ (n : ℕ). take n p)
      (ap (λ (s : Bytes). strnlen s (length p)) (sym (append-nil p))
        ∙ strnlen-long p [] (length p) t (le_refl _))
    ∙ take_all (length p) p (le_refl _)

c_strings-text : (ps : List Bytes) → All IsText ps → c_strings ps ≡ ps
c_strings-text [] t = refl
c_strings-text (p ∷ ps) (t, ts) =
    ap₂ (λ (x : Bytes) (xs : List Bytes). x ∷ xs) (c_string-text p t) (c_strings-text ps ts)

without_newline-line : (text : Bytes) → without_newline (text ++ b'\n' ∷ []) ≡ text
unfolding without_newline
without_newline-line [] = refl
without_newline-line (c ∷ []) = refl
without_newline-line (c ∷ d ∷ text) = ap (◌∷◌ c) (without_newline-line (d ∷ text))

paths_of-cut :
    (text : Bytes) → 0 < length text → paths_of true text ≡ c_strings ((cut text).0 ∷ (cut text).1)
unfolding paths_of
paths_of-cut [] h = absurd (omega arith)
paths_of-cut (c ∷ text) h = refl

printed_some : (p : Bytes) (ps : List Bytes) → is_canonical p ≡ true → 0 < length (printed p ps)
printed_some [] ps e = cc
printed_some (c ∷ p) [] e = omega arith
printed_some (c ∷ p) (q ∷ qs) e = omega arith

paths_of-printed :
    (p : Bytes) (ps : List Bytes)
    → is_canonical p ≡ true
    → AreCanonical ps
    → IsText p
    → All IsText ps
    → paths_of true (printed p ps) ≡ p ∷ ps
paths_of-printed p ps e h t ts =
    paths_of-cut (printed p ps) (printed_some p ps e)
    ∙ ap (λ (x : Bytes × List Bytes). c_strings (x.0 ∷ x.1)) (cut-printed p ps e h)
    ∙ c_strings-text (p ∷ ps) (t, ts)

-- A worker that asked for several paths, and whose dialog ended with status 0 and printed these
-- canonical paths in a line, separated by `//`, hands exactly these paths to the callback, in order
-- and without an error, as many as fit the array that it has counted.
pub dialog_answer-printed :
    (r : DialogRequest) (out : Outcome) (p : Bytes) (ps : List Bytes)
    → r.multiple ≡ true
    → r.save ≡ false
    → out.result ≡ 0
    → out.exit_code ≡ 0
    → out.output ≡ some (printed p ps ++ b'\n' ∷ [])
    → is_canonical p ≡ true
    → All (λ (q : Bytes). is_canonical q ≡ true) ps
    → IsText p
    → All IsText ps
    → (dialog_answer r true out ≡ (some (p ∷ ps), 0))
      × (length (p ∷ ps) ≡ separators (printed p ps) + 1)
unfolding dialog_answer
dialog_answer-printed r out p ps several open_one fine status output e h t ts = (
  if_false (not (out.result == 0)) _ _ (ground (arith, fine))
      ∙ if_true (out.exit_code == 0) _ _ (ground (arith, status))
      ∙ ap₂ (λ (m : Bool) (text : Bytes). (some (paths_of m (without_newline text)), 0))
          (ap₂ (λ (m : Bool) (s : Bool). m && not s) several open_one) (ap output_text output)
      ∙ ap (λ (text : Bytes). (some (paths_of true text), 0)) (without_newline-line (printed p ps))
      ∙ ap (λ (paths : List Bytes). (some paths, 0)) (paths_of-printed p ps e h t ts),
  omega (
    arith,
    length-cut (printed p ps),
    ap (λ (x : Bytes × List Bytes). length x.1) (cut-printed p ps e h),
  ),
)
