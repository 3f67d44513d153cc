-- ===== src/Tests/Update.antt =====
-- Runs of app/appimage_update_policy.h and app/appimage_update_directory.h, and instances of its theorems.
use whitenoise_linux.Base.{
  Bytes, true, false, Option, if◌then◌else◌, none, some, codes, same_bytes, ◌≡◌, refl, arith, inl,
  ◌↔◌,
}
use whitenoise_linux.Update.Version.{
  digits, field, dot, build, Version, fields, wn_appimage_version, number_from,
}
use whitenoise_linux.Update.Newer.{
  Before, later_fields, both_parsed, wn_appimage_newer, wn_appimage_newer-Before,
}
use whitenoise_linux.Update.Directory.{
  Stat, safe, ancestors_safe, wn_appimage_private_directory, IsPrivate,
  wn_appimage_private_directory-IsPrivate,
}
use whitenoise_linux.Update.Reads.{IsNumber, meant, in_range, wn_appimage_version-meant}

abbrev first : Option Bytes
first = some (codes "2025.1.31")

abbrev second : Option Bytes
second = some (codes "2025.2.1+7")

abbrev third : Option Bytes
third = some (codes "2025.2.1-build.12")

read_build :
    wn_appimage_version third ≡ some (record { year = 2025; month = 2; day = 1; number = 12 })
unfolding wn_appimage_version fields field digits dot build same_bytes
read_build = refl

refused : wn_appimage_version (some (codes "2025.13.1")) ≡ none
unfolding wn_appimage_version fields field digits dot build same_bytes
refused = refl

second_newer : wn_appimage_newer first second ≡ true
unfolding wn_appimage_newer both_parsed later_fields wn_appimage_version fields field digits dot
    build same_bytes
second_newer = refl

third_newer : wn_appimage_newer second third ≡ true
unfolding wn_appimage_newer both_parsed later_fields wn_appimage_version fields field digits dot
    build same_bytes
third_newer = refl

wn_appimage_newer-Before_example : (wn_appimage_newer first second ≡ true) ↔ (
    (v : Version) × (w : Version) × (wn_appimage_version first ≡ some v)
    × (wn_appimage_version second ≡ some w)
    × Before v w)
wn_appimage_newer-Before_example = wn_appimage_newer-Before first second

year-IsNumber : IsNumber (codes "2025")
unfolding number_from
year-IsNumber = record {
  some_digit = omega arith;
  all_digits = (refl, (refl, (refl, (refl, tt))));
  fits = omega arith;
}

one-IsNumber : IsNumber (codes "1")
unfolding number_from
one-IsNumber = record { some_digit = omega arith; all_digits = (refl, tt); fits = omega arith }

wn_appimage_version-meant_example :
    (wn_appimage_version (some (codes "2025.1.1"))
      ≡ in_range (meant (codes "2025") (codes "1") (codes "1") 0))
    × (wn_appimage_version (some (codes "2025.1.1+1"))
        ≡ in_range (meant (codes "2025") (codes "1") (codes "1") (number_from 0 (codes "1"))))
wn_appimage_version-meant_example =
    wn_appimage_version-meant (codes "2025") (codes "1") (codes "1") (codes "+") (codes "1")
      year-IsNumber one-IsNumber one-IsNumber (inl refl) one-IsNumber

-- /tmp is sticky, /tmp/u the user's own.
abbrev directories : Bytes → Option Stat
directories d =
    if same_bytes d (codes "/tmp")
    then some (record { is_directory = true; owner = 0; mode = 1023 })
    else if same_bytes d (codes "/tmp/u")
    then some (record { is_directory = true; owner = 7; mode = 448 })
    else none

workspace_private :
    wn_appimage_private_directory 7 directories (some (codes "/tmp/u")) (codes "/tmp/u") ≡ true
unfolding wn_appimage_private_directory ancestors_safe safe same_bytes
workspace_private = refl

others_refused :
    wn_appimage_private_directory 8 directories (some (codes "/tmp/u")) (codes "/tmp/u") ≡ false
unfolding wn_appimage_private_directory ancestors_safe safe same_bytes
others_refused = refl

wn_appimage_private_directory-IsPrivate_example :
    (wn_appimage_private_directory 7 directories (some (codes "/tmp/u")) (codes "/tmp/u") ≡ true)
    ↔ IsPrivate 7 directories (some (codes "/tmp/u")) (codes "/tmp/u")
wn_appimage_private_directory-IsPrivate_example =
    wn_appimage_private_directory-IsPrivate 7 directories (some (codes "/tmp/u")) (codes "/tmp/u")
