-- ===== src/Update/Reads.antt =====
-- The versions that wn_appimage_version of app/appimage_update_policy.h reads.
use whitenoise_linux.Base.{
  ℕ, ◌+◌, ◌-◌, ◌*◌, ◌/◌, ◌≤◌, ◌<◌, [], ◌∷◌, ◌++◌, Bytes, true, false, Option, none, some, ltb,
  if◌then◌else◌, codes, same_bytes, length, All, ◌≡◌, refl, arith, ◌⊎◌, inl, inr, Bool-cases,
  append-nil, subst,
}
use whitenoise_linux.Update.Version.{
  u64_max, is_digit, digits, field, dot, build, Version, in_calendar, fields, wn_appimage_version,
  number_from,
}

abbrev IsDigit : ℕ → Type 0
IsDigit c = is_digit c ≡ true

-- The text ends, or goes on with a byte that is no digit.
abbrev Stops : Bytes → Type 0
Stops [] = Unit {0}
Stops (c ∷ cs) = is_digit c ≡ false

number_from-ge : (value : ℕ) (ds : Bytes) → value ≤ number_from value ds
unfolding number_from
number_from-ge value [] = omega arith
number_from-ge value (c ∷ cs) = omega (arith, number_from-ge (value * 10 + (c - 48)) cs)

digits_reads :
    (value : ℕ) (ds rest : Bytes)
    → All IsDigit ds
    → Stops rest
    → number_from value ds ≤ u64_max
    → digits value (ds ++ rest) ≡ some (number_from value ds, rest)
unfolding digits number_from
digits_reads value [] [] all stops fits = refl
digits_reads value [] (c ∷ rest) all stops fits = rw stops refl
digits_reads value (c ∷ cs) rest (is, all) stops fits =
    let next = value * 10 + (c - 48) in
    let room : ltb ((u64_max - (c - 48)) / 10) value ≡ false =
      ground (arith, number_from-ge next cs, is) in
    rw (is, room) (digits_reads next cs rest all stops fits)

-- A string of digits that writes a 64-bit number.
pub record IsNumber (ds : Bytes) : Type 0 where
  pub some_digit : 0 < length ds
  pub all_digits : All IsDigit ds
  pub fits : number_from 0 ds ≤ u64_max

field_reads :
    (ds rest : Bytes)
    → IsNumber ds
    → Stops rest
    → field (ds ++ rest) ≡ some (number_from 0 ds, rest)
unfolding field
field_reads [] rest v stops = absurd (omega (arith, v.some_digit))
field_reads (c ∷ cs) rest v stops =
    rw (v.all_digits.0) (digits_reads 0 (c ∷ cs) rest v.all_digits stops v.fits)

field_whole : (ds : Bytes) → IsNumber ds → field ds ≡ some (number_from 0 ds, [])
field_whole ds v =
    subst (λ (t : Bytes). field t ≡ some (number_from 0 ds, [])) (append-nil ds)
      (field_reads ds [] v tt)

-- The marks that part the build number.
abbrev pub IsMark : Bytes → Type 0
IsMark m = (m ≡ codes "+") ⊎ (m ≡ codes "-build.")

build_reads : (m b : Bytes) → IsMark m → IsNumber b → build (m ++ b) ≡ some (number_from 0 b)
unfolding build same_bytes
build_reads m b (inl e) v = rw (e, field_whole b v) refl
build_reads m b (inr e) v = rw (e, field_whole b v) refl

mark-Stops : (m b : Bytes) → IsMark m → Stops (m ++ b)
mark-Stops m b (inl e) = rw e refl
mark-Stops m b (inr e) = rw e refl

-- What the three or four numbers of a version say.
abbrev pub meant : Bytes → Bytes → Bytes → ℕ → Version
meant y m d b = record {
  year = number_from 0 y;
  month = number_from 0 m;
  day = number_from 0 d;
  number = b;
}

abbrev pub in_range : Version → Option Version
in_range v = if in_calendar v then some v else none

fields_reads :
    (y m d tail : Bytes) (b : ℕ)
    → IsNumber y
    → IsNumber m
    → IsNumber d
    → Stops tail
    → build tail ≡ some b
    → fields (y ++ (46 ∷ (m ++ (46 ∷ (d ++ tail))))) ≡ in_range (meant y m d b)
unfolding fields dot
fields_reads y m d tail b vy vm vd stops read =
    rw
      (
        field_reads y (46 ∷ (m ++ (46 ∷ (d ++ tail)))) vy refl,
        field_reads m (46 ∷ (d ++ tail)) vm refl,
        field_reads d tail vd stops,
        read,
        fields,
      )
      refl

-- A version of three numbers, or of four with the last behind "+" or "-build.", is read as the
-- numbers that its digits write, if each fits 64 bits, and accepted if they are a date from the year
-- 2000 on.
pub wn_appimage_version-meant :
    (y m d mark b : Bytes)
    → IsNumber y
    → IsNumber m
    → IsNumber d
    → IsMark mark
    → IsNumber b
    → (wn_appimage_version (some (y ++ (46 ∷ (m ++ (46 ∷ d))))) ≡ in_range (meant y m d 0))
      × (wn_appimage_version (some (y ++ (46 ∷ (m ++ (46 ∷ (d ++ (mark ++ b)))))))
          ≡ in_range (meant y m d (number_from 0 b)))
unfolding wn_appimage_version build
wn_appimage_version-meant y m d mark b vy vm vd is vb = (
  subst (λ (t : Bytes). fields (y ++ (46 ∷ (m ++ (46 ∷ t)))) ≡ in_range (meant y m d 0))
      (append-nil d) (fields_reads y m d [] 0 vy vm vd tt refl),
  fields_reads y m d (mark ++ b) (number_from 0 b) vy vm vd (mark-Stops mark b is)
      (build_reads mark b is vb),
)

digits_overflow :
    (value : ℕ) (ds rest : Bytes)
    → All IsDigit ds
    → value ≤ u64_max
    → u64_max < number_from value ds
    → digits value (ds ++ rest) ≡ none
unfolding digits number_from
digits_overflow value [] rest all fits over = absurd (omega arith)
digits_overflow value (c ∷ cs) rest (is, all) fits over =
    elim (Bool-cases (ltb ((u64_max - (c - 48)) / 10) value)) [
      | inl big ↦ rw (is, big) refl
      | inr small ↦
          rw (is, small)
            (digits_overflow (value * 10 + (c - 48)) cs rest all (ground (arith, is)) over)
    ]

number_from_nil : u64_max < number_from 0 [] → ⊥
unfolding number_from
number_from_nil h = omega arith

field_overflow :
    (c : ℕ) (cs rest : Bytes)
    → All IsDigit (c ∷ cs)
    → u64_max < number_from 0 (c ∷ cs)
    → field (c ∷ (cs ++ rest)) ≡ none
unfolding field
field_overflow c cs rest all over =
    rw (all.0) (digits_overflow 0 (c ∷ cs) rest all (omega arith) over)

-- A version whose year does not fit 64 bits is refused: no number wraps.
pub wn_appimage_version_overflow :
    (y rest : Bytes)
    → All IsDigit y
    → u64_max < number_from 0 y
    → wn_appimage_version (some (y ++ rest)) ≡ none
unfolding wn_appimage_version fields dot
wn_appimage_version_overflow [] rest all over = absurd (number_from_nil over)
wn_appimage_version_overflow (c ∷ cs) rest all over =
    rw (wn_appimage_version, fields, dot, field_overflow c cs rest all over) refl
