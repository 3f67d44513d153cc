-- ===== src/Tests/Archive.antt =====
-- Runs of app/archive.c, and instances of its theorems.
use whitenoise_linux.Base.Int.{pos}
use whitenoise_linux.Base.{
  ℕ, List, [], ◌∷◌, ◌++◌, Bool, true, false, Option, none, some, codes, ◌≡◌, refl, arith,
}
use whitenoise_linux.Decoder.Wire.{put}
use whitenoise_linux.Decoder.Reply.{archive, list_all, one_entry}
use whitenoise_linux.Decoder.Reply.Header.{IsArchive}
use whitenoise_linux.Decoder.Build.{blank}
use whitenoise_linux.Archive.Output.{Output, empty_output, arc_reserve, grow}
use whitenoise_linux.Archive.Read.{
  gives, Entry, record_bytes, arc_record, make_room, extract_loop, arc_extract, list_entry,
  arc_read,
}
use whitenoise_linux.Archive.Accepted.{answered, reply_header-IsArchive}

abbrev always : ℕ → Bool
always n = true

-- A directory, and a file of three bytes that come in two reads.
abbrev folder : Entry
folder = record { regular = false; name = some (codes "d"); size = none; reads = []; skips = true }

abbrev file : Entry
file = record {
  regular = true;
  name = some (codes "d/a");
  size = some (pos 3);
  reads = gives (1 ∷ 2 ∷ []) ∷ gives (3 ∷ []) ∷ [];
  skips = true;
}

abbrev packed : List (Option Entry)
packed = some folder ∷ some file ∷ []

abbrev listed : Output
listed = record {
  content = put 1 ++ (put 3 ++ (put 3 ++ (put 0 ++ codes "d/a")));
  capacity = 4096;
  count = 1;
}

list_read : arc_read always list_all 0 0 packed empty_output ≡ some listed
unfolding arc_read list_entry arc_record arc_reserve grow record_bytes put
list_read = refl

entry_read :
    arc_read always one_entry 1 0 packed empty_output
    ≡ some (record { content = 1 ∷ 2 ∷ 3 ∷ []; capacity = 4096; count = 0 })
unfolding arc_read arc_extract extract_loop make_room arc_reserve grow
entry_read = refl

reply_header-IsArchive_example : IsArchive list_all (answered list_all 0 listed (blank archive))
reply_header-IsArchive_example =
    reply_header-IsArchive always list_all 0 packed listed (blank archive) (omega arith) (λ e. refl)
      list_read
