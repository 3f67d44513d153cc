-- ===== src/SharedMemory/Access.antt =====
-- wn_ipc_read and wn_ipc_write of app/helper_ipc.c on the bytes of the mapping.
use whitenoise_linux.Base.{
  ℕ, ◌-◌, List, [], ◌∷◌, ◌++◌, Bytes, Bool, ◌&&◌, ◌||◌, Option, none, some, ltb, leb, if◌then◌else◌,
  length, take, drop, write_at,
}

-- !ipc || offset > ipc->size || size > ipc->size - offset
abbrev pub outside : Bytes → ℕ → ℕ → Bool
outside memory size offset = ltb (length memory) offset || ltb (length memory - offset) size

-- The access lies in the first word.
abbrev pub in_header : Bytes → ℕ → ℕ → Bool
in_header memory size offset = leb 4 (length memory) && leb offset 4 && leb size (4 - offset)

abbrev pub read_at : Bytes → ℕ → ℕ → Bytes
read_at memory size offset = take size (drop offset memory)

-- wn_ipc_read: the bytes read, or `none` for -1; an ipc that is NULL is `none`.
unfoldable pub wn_ipc_read : Option Bytes → ℕ → ℕ → Option Bytes
wn_ipc_read none size offset = none
wn_ipc_read (some memory) size offset =
    if outside memory size offset
    then none
    else some (
        if in_header memory size offset
        then read_at (take 4 memory) size offset
        else read_at memory size offset)

-- The loop of the compare-and-exchange. `previous` is the word that was loaded. Each attempt finds
-- the word as it was (`none`), and stores, or finds another (`some`), which becomes `previous`; the
-- word that is stored at last, if the attempts get there.
unfoldable pub exchange : Bytes → Bytes → ℕ → List (Option Bytes) → Option Bytes
exchange previous d offset [] = none
exchange previous d offset (none ∷ attempts) = some (write_at previous offset d)
exchange previous d offset (some word ∷ attempts) = exchange word d offset attempts

-- The mapping after the header word was stored.
abbrev pub store_word : Bytes → Option Bytes → Option Bytes
store_word memory none = none
store_word memory (some word) = some (word ++ drop 4 memory)

-- What a call of wn_ipc_write gives: -1, the mapping that it leaves, or an exchange that goes on.
pub data Written : Type 0 where
  refused : Written
  written : Bytes → Written
  waiting : Written

abbrev pub from_exchange : Option Bytes → Written
from_exchange none = waiting
from_exchange (some memory) = written memory

-- wn_ipc_write. The attempts of the exchange say how others change the header word meanwhile; the
-- rest of the mapping is as found.
unfoldable pub wn_ipc_write : Option Bytes → Bytes → ℕ → List (Option Bytes) → Written
wn_ipc_write none d offset attempts = refused
wn_ipc_write (some memory) d offset attempts =
    if outside memory (length d) offset
    then refused
    else if in_header memory (length d) offset
    then from_exchange (store_word memory (exchange (take 4 memory) d offset attempts))
    else written (write_at memory offset d)
