-- ===== src/Tools/Dialog.antt =====
-- The file dialogs (app/tool_broker.c): wn_tools_dialog, dialog_worker, and the part of
-- wn_tools_stop that waits for the worker.
pub mod Picked
pub mod Workers
use whitenoise_linux.Base.Results.{eio, ebusy, enomem, einval, enametoolong}
use whitenoise_linux.Base.{
  ℕ, zero, suc, ◌+◌, ◌-◌, List, [], ◌∷◌, ◌++◌, Bytes, Bool, true, false, not, Option, none, some,
  leb, ◌==◌, ◌&&◌, ◌||◌, if◌then◌else◌, codes, length, take, ◌≡◌, refl,
}
use whitenoise_linux.Broker.Strings.{strnlen, base_name}
use whitenoise_linux.Tools.Request.{tool_open_dialog, tool_save_dialog}
use whitenoise_linux.Tools.Reply.{Outcome}

abbrev pub path_max : ℕ
path_max = 4096

-- struct dialog_request; the callback and its argument are not read.
pub record DialogRequest : Type 0 where
  pub save : Bool
  pub multiple : Bool
  pub name : Bytes

-- dialog_running and dialog_joinable, and the workers that have been created and not been joined.
pub record Dialogs : Type 0 where
  pub running : Bool
  pub joinable : Bool
  pub workers : ℕ

-- pthread_join, if there is a worker to join.
unfoldable pub joined : Dialogs → Dialogs
joined d = if d.joinable then record d { joinable = false; workers = d.workers - 1 } else d

-- What wn_tools_dialog is called with, and what calloc and pthread_create answer.
pub record DialogCall : Type 0 where
  pub has_callback : Bool
  pub save : Bool
  pub multiple : Bool
  pub name : Option Bytes
  pub allocated : Bool
  pub create_error : ℕ

-- The name that is put into the request: `none` where it is too long.
unfoldable pub requested_name : Option Bytes → Option Bytes
unfolding base_name
requested_name none = some []
requested_name (some name) = if leb path_max (length name) then none else some (base_name name)

abbrev pub Started : Type 0
Started = Dialogs × ℕ × Option DialogRequest

-- pthread_create.
unfoldable pub create_worker : Dialogs → DialogCall → Bytes → Started
create_worker d call name =
    if call.create_error == 0
    then (
      record d { running = true; joinable = true; workers = d.workers + 1 },
      0,
      some (record { save = call.save; multiple = call.multiple; name = name }),
    )
    else (record d { running = false }, call.create_error, none)

abbrev pub named : Dialogs → DialogCall → Option Bytes → Started
named d call none = (d, enametoolong, none)
named d call (some name) = create_worker d call name

-- wn_tools_dialog: the new state, its result, and the request of the worker that it creates.
unfoldable pub wn_tools_dialog : Dialogs → DialogCall → Started
unfolding joined create_worker requested_name
wn_tools_dialog d call =
    if not call.has_callback
    then (d, einval, none)
    else if d.running
    then (d, ebusy, none)
    else if not call.allocated
    then (joined d, enomem, none)
    else named (joined d) call (requested_name call.name)

-- The end of dialog_worker.
unfoldable pub worker_done : Dialogs → Dialogs
worker_done d = record d { running = false }

-- The text of zenity without the newline at its end.
unfoldable pub without_newline : Bytes → Bytes
without_newline [] = []
without_newline (c ∷ []) = if c == b'\n' then [] else c ∷ []
without_newline (c ∷ d ∷ text) = c ∷ without_newline (d ∷ text)

abbrev pub is_separator : ℕ → ℕ → Bool
is_separator c d = c == b'/' && d == b'/'

-- The loop that counts the entries behind the first.
unfoldable pub separators : Bytes → ℕ
separators [] = 0
separators (c ∷ []) = 0
separators (c ∷ d ∷ text) =
    let more = suc (separators text) in
    let same = separators (d ∷ text) in if is_separator c d then more else same

abbrev pub Pieces : Type 0
Pieces = Bytes × List Bytes

-- One more byte in front of the first piece, and a piece that ends here.
abbrev pub in_front : ℕ → Pieces → Pieces
in_front c (piece, pieces) = (c ∷ piece, pieces)

abbrev pub ended : Pieces → Pieces
ended (piece, pieces) = ([], piece ∷ pieces)

-- The loop that cuts the text at its separators: the first piece, and the further ones.
unfoldable pub cut : Bytes → Pieces
cut [] = ([], [])
cut (c ∷ []) = (c ∷ [], [])
cut (c ∷ d ∷ text) =
    let end = ended (cut text) in
    let more = in_front c (cut (d ∷ text)) in if is_separator c d then end else more

-- A piece as a string of C, which ends at the first NUL.
abbrev pub c_string : Bytes → Bytes
c_string piece = take (strnlen piece (length piece)) piece

abbrev pub c_strings : List Bytes → List Bytes
c_strings [] = []
c_strings (p ∷ ps) = c_string p ∷ c_strings ps

-- The paths that are stored for one text.
unfoldable pub paths_of : Bool → Bytes → List Bytes
unfolding cut
paths_of multiple [] = []
paths_of false (c ∷ text) = c_string (c ∷ text) ∷ []
paths_of true (c ∷ text) = let (piece, pieces) = cut (c ∷ text) in c_strings (piece ∷ pieces)

-- snprintf's result in `initial`, before it is cut.
unfoldable pub initial_of : Bytes → Bytes → Bytes
initial_of downloads name = codes "--filename=" ++ (downloads ++ b'/' ∷ name)

unfoldable pub dialog_arguments : Bytes → DialogRequest → List Bytes
unfolding initial_of
dialog_arguments downloads r =
    codes "--file-selection"
    ∷ initial_of downloads r.name
    ∷ (if r.save
        then codes "--save" ∷ []
        else if r.multiple
        then codes "--multiple" ∷ codes "--separator=//" ∷ []
        else [])

-- What the callback gets: the paths, or NULL, and `-error`, here without its sign.
abbrev pub Answer : Type 0
Answer = Option (List Bytes) × ℕ

abbrev pub output_text : Option Bytes → Bytes
output_text none = []
output_text (some d) = d

-- What dialog_worker makes of the outcome of wn_tools_run; `allocated` is whether malloc and calloc
-- give memory.
unfoldable pub dialog_answer : DialogRequest → Bool → Outcome → Answer
unfolding paths_of without_newline
dialog_answer r allocated out =
    if not (out.result == 0)
    then (none, out.result)
    else if out.exit_code == 0
    then if allocated
      then (
        some (paths_of (r.multiple && not r.save) (without_newline (output_text out.output))),
        0,
      )
      else (none, enomem)
    else if out.exit_code == 1
    then (some [], 0)
    else (none, eio)

-- dialog_worker; wn_tools_run is an argument, and the name of the download directory.
unfoldable pub dialog_worker : Bytes → (ℕ → List Bytes → Outcome) → Bool → DialogRequest → Answer
unfolding dialog_arguments dialog_answer
dialog_worker downloads run allocated r =
    if leb path_max (length (initial_of downloads r.name))
    then (none, enametoolong)
    else dialog_answer r allocated
        (run (if r.save then tool_save_dialog else tool_open_dialog) (dialog_arguments downloads r))
