-- ===== src/Update/Newer.antt =====
-- wn_appimage_newer of app/appimage_update_policy.h.
use whitenoise_linux.Base.{
  ◌<◌, Bytes, Bool, true, false, not, Option, none, some, ltb, ◌==◌, if◌then◌else◌, ◌≡◌, ◌↔◌, refl,
  arith, ◌⊎◌,
}
use mathlib.Core.Option.{some-injective}
use whitenoise_linux.Update.Version.{Version, wn_appimage_version}

-- The loop over the four fields: the first that differs decides.
unfoldable pub later_fields : Version → Version → Bool
later_fields old new =
    if not (new.year == old.year)
    then ltb old.year new.year
    else if not (new.month == old.month)
    then ltb old.month new.month
    else if not (new.day == old.day)
    then ltb old.day new.day
    else if not (new.number == old.number)
    then ltb old.number new.number
    else false

unfoldable pub both_parsed : Option Version → Option Version → Bool
both_parsed (some old) (some new) = later_fields old new
both_parsed _ _ = false

-- wn_appimage_newer
unfoldable pub wn_appimage_newer : Option Bytes → Option Bytes → Bool
wn_appimage_newer old new = both_parsed (wn_appimage_version old) (wn_appimage_version new)

-- The lexicographic order of versions, as it is meant.
abbrev pub Before : Version → Version → Type 0
Before v w =
    (v.year < w.year)
    ⊎ ((v.year ≡ w.year)
        × ((v.month < w.month)
            ⊎ ((v.month ≡ w.month)
                × ((v.day < w.day) ⊎ ((v.day ≡ w.day) × (v.number < w.number))))))

later_fields-Before : (v w : Version) → (later_fields v w ≡ true) ↔ Before v w
unfolding later_fields
later_fields-Before v w = (λ h. ground arith, λ h. ground arith)

both_parsed-Before :
    (x y : Option Version)
    → (both_parsed x y ≡ true)
      ↔ ((v : Version) × (w : Version) × (x ≡ some v) × (y ≡ some w) × Before v w)
unfolding both_parsed
both_parsed-Before none y = (λ h. cc, λ (v, w, e, f, b). cc)
both_parsed-Before (some v) none = (λ h. cc, λ (v, w, e, f, b). cc)
both_parsed-Before (some v) (some w) = (
  λ h. (v, w, refl, refl, (later_fields-Before v w).0 h),
  λ (v', w', e, f, b).
      (later_fields-Before v w).1 (rw (some-injective v v' e, some-injective w w' f) b),
)

-- An update is newer exactly if both texts are versions and the first field that differs is larger.
pub wn_appimage_newer-Before :
    (old new : Option Bytes)
    → (wn_appimage_newer old new ≡ true) ↔ (
        (v : Version) × (w : Version) × (wn_appimage_version old ≡ some v)
        × (wn_appimage_version new ≡ some w)
        × Before v w)
unfolding wn_appimage_newer
wn_appimage_newer-Before old new =
    both_parsed-Before (wn_appimage_version old) (wn_appimage_version new)

later_fields_twice :
    (u v w : Version)
    → later_fields u v ≡ true
    → later_fields v w ≡ true
    → (later_fields u w ≡ true) × (later_fields w u ≡ false)
unfolding later_fields
later_fields_twice u v w h k = ground arith

both_parsed_twice :
    (x y z : Option Version)
    → both_parsed x y ≡ true
    → both_parsed y z ≡ true
    → (both_parsed x z ≡ true) × (both_parsed z x ≡ false)
unfolding both_parsed
both_parsed_twice none y z h k = cc
both_parsed_twice (some u) none z h k = cc
both_parsed_twice (some u) (some v) none h k = cc
both_parsed_twice (some u) (some v) (some w) h k = later_fields_twice u v w h k

-- What is newer than an update is newer than what the update replaces, and never the other way round.
pub wn_appimage_newer_twice :
    (a b c : Option Bytes)
    → wn_appimage_newer a b ≡ true
    → wn_appimage_newer b c ≡ true
    → (wn_appimage_newer a c ≡ true) × (wn_appimage_newer c a ≡ false)
unfolding wn_appimage_newer
wn_appimage_newer_twice a b c h k =
    both_parsed_twice (wn_appimage_version a) (wn_appimage_version b) (wn_appimage_version c) h k
