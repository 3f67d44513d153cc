-- ===== src/Sandbox/Downloads.antt =====
-- The folder for downloads that user-dirs.dirs names: the parser of downloads (app/main_sandbox.c). A
-- line is what fgets gives, up to its first NUL.
pub mod Quoted
pub mod Scan
pub mod Accepted
use whitenoise_linux.Base.{
  ℕ, zero, suc, ◌-◌, ◌+◌, List, [], ◌∷◌, ◌++◌, Bytes, Bool, true, false, not, Option, none, some,
  leb, ◌==◌, ◌&&◌, ◌||◌, if◌then◌else◌, codes, same_bytes, length, take, drop,
}

-- sizeof value - 1
abbrev pub value_max : ℕ
value_max = 4095

abbrev pub is_blank : ℕ → Bool
is_blank c = c == 32 || c == 9

unfoldable pub skip : (ℕ → Bool) → Bytes → Bytes
skip blank [] = []
skip blank (c ∷ p) = let rest = skip blank p in if blank c then rest else c ∷ p

abbrev pub key : Bytes
key = codes "XDG_DOWNLOAD_DIR="

unfoldable pub starts_with : Bytes → Bytes → Bool
starts_with prefix p = same_bytes (take (length prefix) p) prefix

-- A quote or a new line, or what must be escaped.
abbrev pub is_special : ℕ → Bool
is_special c = c == b'\\' || c == b'"' || c == b'$' || c == b'`'

abbrev pub ends_value : ℕ → Bool
ends_value c = c == b'"' || c == 10 || c == b'$' || c == b'`'

-- The loop that fills value[]: what it has read up to `n`, and `p` where it is left. The flag is that
-- a backslash was read.
unfoldable pub scan : Bool → Bytes → Bytes → Bytes × Bytes
scan escaped value [] = (value, [])
scan true value (c ∷ p) =
    let rest = scan false (value ++ c ∷ []) p in if is_special c then rest else (value, c ∷ p)
scan false value (c ∷ p) =
    let rest = scan (c == b'\\') (if c == b'\\' then value else value ++ c ∷ []) p in
    if ends_value c || leb value_max (length value) then (value, c ∷ p) else rest

-- How a line is read: it is about something else, it makes the call fail, or it is the entry.
pub data Line : Type 0 where
  other : Line
  invalid : Line
  entry : Bytes → Line

abbrev pub is_absolute : Bytes → Bool
is_absolute [] = false
is_absolute (c ∷ value) = c == b'/'

abbrev pub ends_line : Bytes → Bool
ends_line [] = true
ends_line (c ∷ p) = c == 10 || c == b'#'

-- Behind the loop.
abbrev pub finished : Bytes × Bytes → Line
finished (value, []) = invalid
finished (value, c ∷ p) =
    if not (c == b'"') || leb value_max (length value)
    then invalid
    else if not (ends_line (skip (λ d. is_blank d || d == 13) p)) || not (is_absolute value)
    then invalid
    else entry value

abbrev pub follows_home : Bytes → Bool
follows_home [] = false
follows_home (c ∷ p) = c == b'/' || c == b'"'

unfoldable pub read_value : Bytes → Bytes → Line
unfolding scan skip starts_with
read_value home p =
    if starts_with (codes "$HOME") p && follows_home (drop 5 p)
    then finished (scan false home (drop 5 p))
    else finished (scan false [] p)

-- Behind the key.
abbrev pub quoted : Bytes → Bool → Bytes → Line
quoted home found [] = invalid
quoted home found (c ∷ p) = if found || not (c == b'"') then invalid else read_value home p

unfoldable pub read_line : Bytes → Bool → Bytes → Line
unfolding read_value skip starts_with
read_line home found line =
    let p = skip is_blank line in if starts_with key p then quoted home found (drop 17 p) else other

-- The loop over the lines: `none` for a failure, else the value, if there is one.
abbrev pub or_else :
    Line → Option Bytes → (Option Bytes → Option (Option Bytes)) → Option (Option Bytes)
or_else other found rest = rest found
or_else invalid found rest = none
or_else (entry value) found rest = rest (some value)

abbrev pub is_found : Option Bytes → Bool
is_found none = false
is_found (some value) = true

unfoldable pub read_lines : Bytes → Option Bytes → List Bytes → Option (Option Bytes)
unfolding read_line
read_lines home found [] = some found
read_lines home found (l ∷ lines) =
    or_else (read_line home (is_found found) l) found (λ next. read_lines home next lines)

-- sizeof line, of which fgets fills all but one byte.
abbrev pub line_size : ℕ
line_size = 4096 + 64

-- fgets, from call to call: the line so far, and how many bytes still go in behind the next.
unfoldable pub cut_lines : ℕ → Bytes → Bytes → List Bytes
cut_lines room line [] = if length line == 0 then [] else line ∷ []
cut_lines room line (c ∷ content) =
    let full = c == 10 || room == 0 in
    let rest =
      cut_lines (if full then line_size - 2 else room - 1) (if full then [] else line ++ c ∷ [])
        content in
    if full then (line ++ c ∷ []) ∷ rest else rest

-- A line as a string of C.
unfoldable pub c_text : Bytes → Bytes
c_text [] = []
c_text (c ∷ line) = let rest = c_text line in if c == 0 then [] else c ∷ rest

abbrev pub c_texts : List Bytes → List Bytes
c_texts [] = []
c_texts (l ∷ lines) = c_text l ∷ c_texts lines

-- The loop of downloads over what the file holds.
unfoldable pub read_file : Bytes → Bytes → Option (Option Bytes)
unfolding read_lines cut_lines c_text
read_file home content = read_lines home none (c_texts (cut_lines (line_size - 2) [] content))
