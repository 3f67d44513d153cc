-- ===== src/Update/Version.antt =====
-- wn_appimage_version of app/appimage_update_policy.h.
use whitenoise_linux.Base.{
  ℕ, ◌+◌, ◌-◌, ◌*◌, ◌/◌, ◌^◌, [], ◌∷◌, Bytes, Bool, ◌&&◌, ◌||◌, Option, none, some, ltb, leb, ◌==◌,
  if◌then◌else◌, codes, same_bytes, take, drop,
}

abbrev pub u64_max : ℕ
u64_max = 2 ^ 64 - 1

-- *text >= '0' && *text <= '9'
abbrev pub is_digit : ℕ → Bool
is_digit c = leb 48 c && leb c 57

-- The loop over the digits of a field, from `value` on.
unfoldable pub digits : ℕ → Bytes → Option (ℕ × Bytes)
digits value [] = some (value, [])
digits value (c ∷ cs) =
    let rest = digits (value * 10 + (c - 48)) cs in
    if is_digit c
    then if ltb ((u64_max - (c - 48)) / 10) value then none else rest
    else some (value, c ∷ cs)

-- A field begins with a digit.
unfoldable pub field : Bytes → Option (ℕ × Bytes)
field [] = none
field (c ∷ cs) = if is_digit c then digits 0 (c ∷ cs) else none

-- if (*text++ != '.') return 0;
unfoldable pub dot : Option (ℕ × Bytes) → Option (ℕ × Bytes)
dot none = none
dot (some (n, [])) = none
dot (some (n, c ∷ cs)) = if c == 46 then some (n, cs) else none

-- What follows the third field: nothing, or the mark of a build number and the number.
unfoldable pub build : Bytes → Option ℕ
build [] = some 0
build (c ∷ cs) =
    let marked = same_bytes (take 7 (c ∷ cs)) (codes "-build.") in
    if c == 43 || marked
    then elim (field (if c == 43 then cs else drop 7 (c ∷ cs))) [
      | none ↦ none
      | some (n, []) ↦ some n
      | some (n, d ∷ ds) ↦ none
    ]
    else none

pub record Version : Type 0 where
  pub year : ℕ
  pub month : ℕ
  pub day : ℕ
  pub number : ℕ

-- return out[0] >= 2000 && ...
abbrev pub in_calendar : Version → Bool
in_calendar v = leb 2000 v.year && leb 1 v.month && leb v.month 12 && leb 1 v.day && leb v.day 31

abbrev checked : Version → Option Version
checked v = if in_calendar v then some v else none

unfoldable pub fields : Bytes → Option Version
fields text = elim (dot (field text)) [
  | none ↦ none
  | some (y, t₁) ↦ elim (dot (field t₁)) [
    | none ↦ none
    | some (m, t₂) ↦ elim (field t₂) [
      | none ↦ none
      | some (d, t₃) ↦ elim (build t₃) [
        | none ↦ none
        | some b ↦ checked (record { year = y; month = m; day = d; number = b })
      ]
    ]
  ]
]

-- wn_appimage_version; the text is NULL or a string.
unfoldable pub wn_appimage_version : Option Bytes → Option Version
wn_appimage_version none = none
wn_appimage_version (some text) = fields text

-- The number that a string of digits writes.
unfoldable pub number_from : ℕ → Bytes → ℕ
number_from value [] = value
number_from value (c ∷ cs) = number_from (value * 10 + (c - 48)) cs
