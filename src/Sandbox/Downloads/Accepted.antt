-- ===== src/Sandbox/Downloads/Accepted.antt =====
-- What user-dirs.dirs can name, whatever it holds (app/main_sandbox.c).
use mathlib.Core.Option.{some-injective}
use whitenoise_linux.Base.{
  ◌<◌, List, [], ◌∷◌, Bytes, Bool, true, false, not, Option, none, some, leb, ◌==◌, ◌&&◌, ◌||◌,
  if◌then◌else◌, codes, drop, length, ◌≡◌, refl, subst, arith,
}
use whitenoise_linux.Sandbox.Downloads.{
  value_max, scan, skip, is_blank, starts_with, finished, other, invalid, entry, Line, read_value,
  read_line, key, is_absolute, quoted, ends_line, follows_home, read_lines, is_found, or_else,
}

-- An absolute path that fits its array.
abbrev pub IsFolder : Bytes → Type 0
IsFolder value = (is_absolute value ≡ true) × (length value < value_max)

-- A line that is not an entry is one of the other kinds, and an entry is a folder.
abbrev IsRead : Line → Type 0
IsRead other = Unit
IsRead invalid = Unit
IsRead (entry value) = IsFolder value

finished-IsRead : (x : Bytes × Bytes) → IsRead (finished x)
finished-IsRead (value, []) = tt
finished-IsRead (value, c ∷ p) =
    by_tests (not (c == b'"')) (leb value_max (length value))
      (not (ends_line (skip (λ d. is_blank d || d == 13) p))) (is_absolute value) refl refl
  where
    by_tests :
        (a b e f : Bool)
        → leb value_max (length value) ≡ b
        → is_absolute value ≡ f
        → IsRead (if a || b then invalid else if e || not f then invalid else entry value)
    by_tests true b e f p q = tt
    by_tests false true e f p q = tt
    by_tests false false true f p q = tt
    by_tests false false false true p q = (q, ground (arith, p))
    by_tests false false false false p q = tt

either : (b : Bool) (x y : Line) → IsRead x → IsRead y → IsRead (if b then x else y)
either true x y h k = h
either false x y h k = k

read_value-IsRead : (home p : Bytes) → IsRead (read_value home p)
unfolding read_value
read_value-IsRead home p =
    either (starts_with (codes "$HOME") p && follows_home (drop 5 p)) _ _
      (finished-IsRead (scan false home (drop 5 p))) (finished-IsRead (scan false [] p))

quoted-IsRead : (home p : Bytes) (found : Bool) → IsRead (quoted home found p)
quoted-IsRead home [] found = tt
quoted-IsRead home (c ∷ p) found =
    either (found || not (c == b'"')) invalid _ tt (read_value-IsRead home p)

read_line-IsRead : (home line : Bytes) (found : Bool) → IsRead (read_line home found line)
unfolding read_line
read_line-IsRead home line found =
    either (starts_with key (skip is_blank line)) _ other
      (quoted-IsRead home (drop 17 (skip is_blank line)) found) tt

-- The value that is known so far.
abbrev IsKnown : Option Bytes → Type 0
IsKnown none = Unit
IsKnown (some value) = IsFolder value

read_lines-IsKnown :
    (home : Bytes) (found : Option Bytes) (lines : List Bytes) (result : Option Bytes)
    → IsKnown found
    → read_lines home found lines ≡ some result
    → IsKnown result
unfolding read_lines
read_lines-IsKnown home found [] result h e = subst IsKnown (some-injective found result e) h
read_lines-IsKnown home found (l ∷ lines) result h e =
    step (read_line home (is_found found) l) (read_line-IsRead home l (is_found found))
      (λ next k. read_lines-IsKnown home next lines result k) e
  where
    step :
        (x : Line)
        → IsRead x
        → ((next : Option Bytes)
            → IsKnown next
            → read_lines home next lines ≡ some result
            → IsKnown result)
        → or_else x found (λ next. read_lines home next lines) ≡ some result
        → IsKnown result
    step other r rest k = rest found h k
    step invalid r rest k = cc
    step (entry value) r rest k = rest (some value) r k

-- Whatever the lines of user-dirs.dirs are, a folder that is taken from them is an absolute path that
-- fits its array.
pub read_lines-IsFolder :
    (home : Bytes) (lines : List Bytes) (value : Bytes)
    → read_lines home none lines ≡ some (some value)
    → IsFolder value
read_lines-IsFolder home lines value e = read_lines-IsKnown home none lines (some value) tt e
