-- ===== src/Tests/Sandbox.antt =====
-- Runs of the sandbox's rules and of its downloads folder, app/main_sandbox.c, and instances of the
-- theorems.
use whitenoise_linux.Base.{
  ℕ, ◌≢◌, ltb, ◌<◌, replicate, ◌≤◌, List, [], ◌∷◌, ◌++◌, Bytes, true, false, none, some, codes,
  same_bytes, length, ◌≡◌, refl, arith,
}
use whitenoise_linux.Sandbox.Rules.{
  Rule, within, writes, overlaps, against, resolved, missing, add, rule_max, writable, is_protected,
  Grant, tree, writable_tree, granted, grant_all,
}
use whitenoise_linux.Sandbox.Rules.Disjoint.{AllPairs, SameOn, grant_all-AreDisjoint}
use whitenoise_linux.Sandbox.Downloads.{
  starts_with, skip, scan, entry, read_value, read_line, read_lines, cut_lines, c_text, read_file,
}
use whitenoise_linux.Sandbox.Downloads.Scan.{escape, line_of}
use whitenoise_linux.Sandbox.Downloads.Quoted.{read_file-escape}

abbrev home : Bytes
home = codes "/home/u"

abbrev data_path : Bytes
data_path = codes "/home/u/d"

abbrev grants : List Grant
grants =
    writable_tree data_path home (resolved data_path)
    ∷ tree (resolved (codes "/usr/lib")) (codes "r") true
    ∷ tree missing (codes "r") true
    ∷ []

abbrev table : List Rule
table =
    record { path = data_path; permissions = codes "rwc" }
    ∷ record { path = codes "/usr/lib"; permissions = codes "r" }
    ∷ []

grants-table : grant_all [] grants ≡ some table
unfolding grant_all granted writable add against overlaps within writes is_protected same_bytes
grants-table = refl

-- A helper in the data directory is refused, and HOME is not writable.
overlapping :
    grant_all [] (
      writable_tree data_path home (resolved data_path)
      ∷ tree (resolved (codes "/home/u/d/x")) (codes "x") false
      ∷ [])
    ≡ none
unfolding grant_all granted writable add against overlaps within writes is_protected same_bytes
overlapping = refl

home_refused : writable [] (codes "/home") home (resolved (codes "/home")) ≡ none
unfolding writable within same_bytes
home_refused = refl

data_writable :
    writable [] data_path home (resolved data_path)
    ≡ some (record { path = data_path; permissions = codes "rwc" } ∷ [])
unfolding writable add against overlaps within writes is_protected same_bytes
data_writable = refl

grant_all-AreDisjoint_example :
    (length table ≤ rule_max) × ((path : Bytes) → AllPairs (SameOn path) table)
grant_all-AreDisjoint_example = grant_all-AreDisjoint grants table grants-table

quoted_line :
    read_line home false (codes "  XDG_DOWNLOAD_DIR=\"$HOME/a\\\"b\" # c")
    ≡ entry (codes "/home/u/a\"b")
unfolding read_line read_value scan skip starts_with same_bytes
quoted_line = refl

abbrev lines : List Bytes
lines = codes "# x\n" ∷ codes "XDG_DOWNLOAD_DIR=\"/d\"\n" ∷ []

lines_read : read_lines home none lines ≡ some (some (codes "/d"))
unfolding read_lines read_line read_value scan skip starts_with same_bytes
lines_read = refl

twice : read_lines home none (lines ++ lines) ≡ none
unfolding read_lines read_line read_value scan skip starts_with same_bytes
twice = refl

plain : (c : ℕ) → ltb 10 c ≡ true → (c ≢ 10) × (0 < c)
plain c e = ((λ k. ground (arith, e, k)), ground (arith, e))

read_file-escape_example :
    (read_file home (line_of (escape (codes "/a$\"b"))) ≡ some (some (codes "/a$\"b")))
    × (read_file home (line_of (codes "$HOME" ++ escape (codes "/a$\"b")))
        ≡ some (some (home ++ codes "/a$\"b")))
read_file-escape_example =
    read_file-escape home (codes "a$\"b") refl
      (plain b'a' refl, (plain b'$' refl, (plain b'"' refl, (plain b'b' refl, tt)))) (omega arith)
      (omega arith)

-- A line that is longer than the array is read in pieces, and the entry refused.
long_line : read_file home (line_of (escape (b'/' ∷ replicate 2100 b'$'))) ≡ none
unfolding read_file read_lines read_line read_value scan skip starts_with same_bytes cut_lines
    c_text
long_line = refl
