-- ===== src/Sandbox/Downloads/Quoted.antt =====
-- A path in quotes, as user-dirs.dirs has it, is read back (app/main_sandbox.c).
use mathlib.Core.Bool.{false≢true}
use whitenoise_linux.Base.{
  ==_iff, ◌==◌, subst, List, ◌-◌, ◌≤◌, none, some, ◌&&◌, ℕ, suc, ◌+◌, ◌<◌, [], ◌∷◌, ◌++◌, Bytes,
  Bool, true, false, not, ◌||◌, if◌then◌else◌, codes, length, ◌≡◌, ◌≢◌, refl, sym, ap, ◌∙◌, arith,
  append_assoc, length-append, if_true, if_false, Bool-cases, inl, inr,
}
use whitenoise_linux.Sandbox.Downloads.{
  line_size, cut_lines, c_text, c_texts, read_file, read_lines, or_else, Line, value_max,
  is_special, entry, read_line, key, is_absolute,
}
use whitenoise_linux.Sandbox.Downloads.Scan.{escape, IsOneLine, line_of, read_line-escape}

abbrev all_plain : Bytes → Bool
all_plain [] = true
all_plain (c ∷ t) = not (c == 10) && not (c == 0) && all_plain t

IsOneLine-append : (v w : Bytes) → IsOneLine v → IsOneLine w → IsOneLine (v ++ w)
IsOneLine-append [] w h k = k
IsOneLine-append (c ∷ v) w (p, h) k = (p, IsOneLine-append v w h k)

special_plain : (c : ℕ) → (c ≢ 10) × (0 < c) → IsOneLine (b'\\' ∷ c ∷ [])
special_plain c p = ((λ e. absurd (omega (arith, e)), omega arith), (p, tt))

escape-IsOneLine : (v : Bytes) → IsOneLine v → IsOneLine (escape v)
escape-IsOneLine [] h = tt
escape-IsOneLine (c ∷ v) (p, h) = elim (Bool-cases (is_special c)) [
  | inl s ↦
      subst IsOneLine (sym (if_true (is_special c) _ _ s))
        (IsOneLine-append (b'\\' ∷ c ∷ []) (escape v) (special_plain c p) (escape-IsOneLine v h))
  | inr s ↦ subst IsOneLine (sym (if_false (is_special c) _ _ s)) (p, escape-IsOneLine v h)
]

-- Text that fits is one line up to its new line.
cut_lines-one :
    (room : ℕ) (line t : Bytes)
    → IsOneLine t
    → length t ≤ room
    → cut_lines room line (t ++ 10 ∷ []) ≡ (line ++ (t ++ 10 ∷ [])) ∷ []
unfolding cut_lines
cut_lines-one room line [] h fits = refl
cut_lines-one room line (c ∷ t) ((n, p), h) fits =
    more (c == 10 || room == 0) (ground (arith, n, fits))
    ∙ cut_lines-one (room - 1) (line ++ c ∷ []) t h (omega (arith, fits))
    ∙ ap (λ (x : Bytes). x ∷ []) (append_assoc line (c ∷ []) (t ++ 10 ∷ []))
  where
    more :
        (full : Bool)
        → full ≡ false
        → (let rest =
              cut_lines
                (if full then line_size - 2 else room - 1)
                (if full then [] else line ++ c ∷ [])
                (t ++ 10 ∷ []) in
            if full then (line ++ c ∷ []) ∷ rest else rest)
          ≡ cut_lines (room - 1) (line ++ c ∷ []) (t ++ 10 ∷ [])
    more true e = absurd (false≢true (sym e))
    more false e = refl

c_text-whole : (t : Bytes) → IsOneLine t → c_text (t ++ 10 ∷ []) ≡ t ++ 10 ∷ []
unfolding c_text
c_text-whole [] h = refl
c_text-whole (c ∷ t) ((n, p), h) =
    if_false (c == 0) [] _ (ground (arith, p)) ∙ ap (◌∷◌ c) (c_text-whole t h)

-- A file of one line, which fgets reads whole.
read_file-one :
    (home t value : Bytes)
    → IsOneLine t
    → length t + 2 ≤ line_size
    → read_line home false (t ++ 10 ∷ []) ≡ entry value
    → read_file home (t ++ 10 ∷ []) ≡ some (some value)
unfolding read_file read_lines
read_file-one home t value h fits e =
    ap (λ (ls : List Bytes). read_lines home none (c_texts ls))
      (cut_lines-one (line_size - 2) [] t h (omega (arith, fits)))
    ∙ ap (λ (l : Bytes). read_lines home none (l ∷ [])) (c_text-whole t h)
    ∙ ap (λ (l : Line). or_else l none (λ next. some next)) e

-- The line without its new line.
abbrev body_of : Bytes → Bytes
body_of path = key ++ b'"' ∷ (path ++ b'"' ∷ [])

body_whole : (path : Bytes) → body_of path ++ 10 ∷ [] ≡ line_of path
body_whole path = ap (λ (x : Bytes). key ++ b'"' ∷ x) (append_assoc path (b'"' ∷ []) (10 ∷ []))

plain_text : (t : Bytes) → all_plain t ≡ true → IsOneLine t
plain_text [] e = tt
plain_text (c ∷ t) e =
    let (p, q, r) = parts (c == 10) (c == 0) _ e in
    ((λ k. false≢true (sym p ∙ (==_iff c 10).1 k), ground (arith, q)), plain_text t r)
  where
    parts : (a b m : Bool) → (not a && not b && m) ≡ true → (a ≡ false) × (b ≡ false) × (m ≡ true)
    parts a b m e = ground arith

body-IsOneLine : (path : Bytes) → IsOneLine path → IsOneLine (body_of path)
body-IsOneLine path h =
    IsOneLine-append (key ++ b'"' ∷ []) (path ++ b'"' ∷ []) (plain_text (key ++ b'"' ∷ []) refl)
      (IsOneLine-append path (b'"' ∷ []) h (plain_text (b'"' ∷ []) refl))

read_file-line :
    (home path value : Bytes)
    → IsOneLine path
    → length (line_of path) < line_size
    → read_line home false (line_of path) ≡ entry value
    → read_file home (line_of path) ≡ some (some value)
read_file-line home path value h fits e =
    subst (λ (l : Bytes). read_file home l ≡ some (some value)) (body_whole path)
      (read_file-one home (body_of path) value (body-IsOneLine path h)
        (omega (arith, fits, ap length (body_whole path), length-append (body_of path) (10 ∷ [])))
        (subst (λ (l : Bytes). read_line home false l ≡ entry value) (sym (body_whole path)) e))

-- A file that holds one entry, with a new line at its end: for an absolute path without a new line or
-- a NUL, that fits its array together with HOME, and whose escaped form fits the array for a line
-- together with $HOME, exactly this path is read, whatever quotes, dollars and backslashes it has,
-- where they are escaped; and of an entry for the path below $HOME that path below HOME is read.
pub read_file-escape :
    (home v : Bytes)
    → is_absolute home ≡ true
    → IsOneLine v
    → length home + suc (length v) < value_max
    → length (line_of (codes "$HOME" ++ escape (b'/' ∷ v))) < line_size
    → (read_file home (line_of (escape (b'/' ∷ v))) ≡ some (some (b'/' ∷ v)))
      × (read_file home (line_of (codes "$HOME" ++ escape (b'/' ∷ v)))
          ≡ some (some (home ++ b'/' ∷ v)))
read_file-escape home v a o h fits =
    let (plain, below) = read_line-escape home v a o h in
    let slashed : IsOneLine (b'/' ∷ v) = ((λ e. absurd (omega (arith, e)), omega arith), o) in
    let clean = escape-IsOneLine (b'/' ∷ v) slashed in
    (
      read_file-line home (escape (b'/' ∷ v)) (b'/' ∷ v) clean (omega (arith, fits)) plain,
      read_file-line home (codes "$HOME" ++ escape (b'/' ∷ v)) (home ++ b'/' ∷ v)
          (IsOneLine-append (codes "$HOME") (escape (b'/' ∷ v)) (plain_text (codes "$HOME") refl)
            clean)
          fits below,
    )
