-- ===== src/Tools/Dialog/Workers.antt =====
-- The workers of the file dialogs (app/tool_broker.c): at most one at a time, and each is joined.
use whitenoise_linux.Base.Results.{ebusy, einval, enomem}
use whitenoise_linux.Base.{
  ℕ, ==_iff, append_assoc, ◌∙◌, ◌++◌, ◌⊎◌, ◌<◌, [], ◌∷◌, Bytes, Bool, true, false, not, Option,
  none, some, leb, ◌==◌, if◌then◌else◌, All, length, ◌≡◌, ◌≢◌, refl, sym, ap, arith, inl, inr,
  Bool-cases, if_true, if_false, subst,
}
use whitenoise_linux.Broker.Strings.{after_slash, base_name, slash_at, or_name}
use whitenoise_linux.Tools.Dialog.{
  Dialogs, DialogCall, DialogRequest, joined, wn_tools_dialog, worker_done, create_worker,
  requested_name, named, path_max, Started,
}

-- The workers that exist are those that can be joined, at most one; and one that runs can be joined.
pub record IsSingle (d : Dialogs) : Type 0 where
  pub counted : d.workers ≡ (if d.joinable then 1 else 0)
  pub running_joinable : d.running ≡ true → d.joinable ≡ true

-- After a join there is no worker.
record IsIdle (d : Dialogs) : Type 0 where
  no_worker : d.workers ≡ 0
  not_joinable : d.joinable ≡ false
  not_running : d.running ≡ false

joined-IsIdle : (d : Dialogs) → IsSingle d → d.running ≡ false → IsIdle (joined d)
unfolding joined
joined-IsIdle d h idle = ground arith

IsIdle-IsSingle : (d : Dialogs) → IsIdle d → IsSingle d
IsIdle-IsSingle d h = ground arith

named-IsSingle :
    (d : Dialogs) (c : DialogCall) (name : Option Bytes) → IsIdle d → IsSingle (named d c name).0
unfolding create_worker
named-IsSingle d c none h = IsIdle-IsSingle d h
named-IsSingle d c (some name) h = ground arith

-- What happens to the dialogs: a call, the end of a worker that runs, or wn_tools_stop, which joins
-- without the lock: it is one step since no other thread than its own calls wn_tools_dialog.
pub data Step (d : Dialogs) (d' : Dialogs) : Type 0 where
  call : (c : DialogCall) → d' ≡ (wn_tools_dialog d c).0 → Step d d'
  worker_ends : d.running ≡ true → d' ≡ worker_done d → Step d d'
  stop : d.running ≡ false → d' ≡ joined d → Step d d'

wn_tools_dialog-IsSingle :
    (d : Dialogs) (c : DialogCall) → IsSingle d → IsSingle (wn_tools_dialog d c).0
unfolding wn_tools_dialog
wn_tools_dialog-IsSingle d c h = elim (Bool-cases c.has_callback) [
  | inr e ↦ subst Fine (sym (if_true (not c.has_callback) _ _ (ap not e))) h
  | inl e ↦
      subst Fine (sym (if_false (not c.has_callback) (d, einval, none) _ (ap not e)))
        (elim (Bool-cases d.running) [
          | inl f ↦ subst Fine (sym (if_true d.running (d, ebusy, none) _ f)) h
          | inr f ↦
              let idle = joined-IsIdle d h f in
              subst Fine (sym (if_false d.running (d, ebusy, none) _ f))
                (elim (Bool-cases c.allocated) [
                  | inr g ↦
                      subst Fine
                        (sym (if_true (not c.allocated) (joined d, enomem, none) _ (ap not g)))
                        (IsIdle-IsSingle (joined d) idle)
                  | inl g ↦
                      subst Fine
                        (sym (if_false (not c.allocated) (joined d, enomem, none) _ (ap not g)))
                        (named-IsSingle (joined d) c (requested_name c.name) idle)
                ])
        ])
]
  where
    Fine : Started → Type 0
    Fine s = IsSingle s.0

Step-IsSingle : (d d' : Dialogs) → Step d d' → IsSingle d → IsSingle d'
unfolding worker_done
Step-IsSingle d d' (call c e) h = subst IsSingle (sym e) (wn_tools_dialog-IsSingle d c h)
Step-IsSingle d d' (worker_ends r e) h = ground arith
Step-IsSingle d d' (stop r e) h =
    subst IsSingle (sym e) (IsIdle-IsSingle (joined d) (joined-IsIdle d h r))

-- The states that the dialogs come to.
pub data Reach (s : Dialogs) : Dialogs → Type 0 where
  here : Reach s s
  next : {t u : Dialogs} → Reach s t → Step t u → Reach s u

abbrev pub no_dialogs : Dialogs
no_dialogs = record { running = false; joinable = false; workers = 0 }

-- However dialogs are asked for, end and are stopped: at most one worker exists at any time, exactly
-- where one can be joined, and a worker that runs is one that can be joined, so none is ever lost.
pub Reach-IsSingle : (d : Dialogs) → Reach no_dialogs d → IsSingle d
Reach-IsSingle d here = ground arith
Reach-IsSingle d (next {t} {u} r st) = Step-IsSingle t u st (Reach-IsSingle t r)

abbrev HasNoSlash : Bytes → Type 0
HasNoSlash s = All (λ (c : ℕ). c ≢ b'/') s

-- What is found behind the last slash, or a text in which none is found.
abbrev HasNoSlashAfter : Bytes → Option Bytes → Type 0
HasNoSlashAfter s none = HasNoSlash s
HasNoSlashAfter s (some base) = HasNoSlash base

slash_at-HasNoSlash :
    (c : ℕ) (s : Bytes) (o : Option Bytes)
    → HasNoSlashAfter s o
    → HasNoSlashAfter (c ∷ s) (slash_at c s o)
slash_at-HasNoSlash c s (some base) h = h
slash_at-HasNoSlash c s none h = elim (Bool-cases (c == b'/')) [
  | inl e ↦ subst (HasNoSlashAfter (c ∷ s)) (sym (if_true (c == b'/') (some s) none e)) h
  | inr e ↦
      subst (HasNoSlashAfter (c ∷ s)) (sym (if_false (c == b'/') (some s) none e))
        (ground (arith, e), h)
]

after_slash-HasNoSlash : (s : Bytes) → HasNoSlashAfter s (after_slash s)
unfolding after_slash
after_slash-HasNoSlash [] = tt
after_slash-HasNoSlash (c ∷ s) = slash_at-HasNoSlash c s (after_slash s) (after_slash-HasNoSlash s)

base_name-HasNoSlash : (name : Bytes) → HasNoSlash (base_name name)
unfolding base_name
base_name-HasNoSlash name = behind (after_slash name) (after_slash-HasNoSlash name)
  where
    behind : (o : Option Bytes) → HasNoSlashAfter name o → HasNoSlash (or_name name o)
    behind none h = h
    behind (some base) h = h

-- The name that was suggested, empty without any.
abbrev pub suggested : Option Bytes → Bytes
suggested none = []
suggested (some name) = name

-- What stands in front of the last part of a path: nothing, or something with a slash at its end.
abbrev pub EndsInSlash : Bytes → Type 0
EndsInSlash front = (front ≡ []) ⊎ ((f : Bytes) × (front ≡ f ++ b'/' ∷ []))

-- The last part of a path: what stands behind its last slash, or all of it.
abbrev pub IsLastPart : Bytes → Bytes → Type 0
IsLastPart path name =
    HasNoSlash name × ((front : Bytes) × (path ≡ front ++ name) × EndsInSlash front)

abbrev pub IsNamed : Bytes → Option DialogRequest → Type 0
IsNamed path none = ⊥
IsNamed path (some r) = IsLastPart path r.name

-- Where the last slash is found.
abbrev SplitAt : Bytes → Option Bytes → Type 0
SplitAt s none = Unit
SplitAt s (some base) = (f : Bytes) × (s ≡ f ++ b'/' ∷ base)

slash_at-SplitAt :
    (c : ℕ) (s : Bytes) (o : Option Bytes) → SplitAt s o → SplitAt (c ∷ s) (slash_at c s o)
slash_at-SplitAt c s (some base) (f, e) = (c ∷ f, ap (◌∷◌ c) e)
slash_at-SplitAt c s none h = elim (Bool-cases (c == b'/')) [
  | inl e ↦
      subst (SplitAt (c ∷ s)) (sym (if_true (c == b'/') (some s) none e))
        ([], ap (λ (x : ℕ). x ∷ s) ((==_iff c b'/').0 e))
  | inr e ↦ subst (SplitAt (c ∷ s)) (sym (if_false (c == b'/') (some s) none e)) tt
]

after_slash-SplitAt : (s : Bytes) → SplitAt s (after_slash s)
unfolding after_slash
after_slash-SplitAt [] = tt
after_slash-SplitAt (c ∷ s) = slash_at-SplitAt c s (after_slash s) (after_slash-SplitAt s)

base_name-IsLastPart : (name : Bytes) → IsLastPart name (base_name name)
unfolding base_name
base_name-IsLastPart name =
    (base_name-HasNoSlash name, part (after_slash name) (after_slash-SplitAt name))
  where
    part :
        (o : Option Bytes)
        → SplitAt name o
        → (front : Bytes) × (name ≡ front ++ or_name name o) × EndsInSlash front
    part none h = ([], refl, inl refl)
    part (some base) (f, e) =
        (f ++ b'/' ∷ [], e ∙ sym (append_assoc f (b'/' ∷ []) base), inr (f, refl))

-- What a call does by whether a worker runs.
abbrev pub Starts : Bytes → Dialogs → Started → Bool → Type 0
Starts path d (d', result, request) true = (result ≡ ebusy) × (d' ≡ d) × (request ≡ none)
Starts path d (d', result, request) false =
    (result ≡ 0) × (d'.running ≡ true) × IsNamed path request

create_worker-Starts :
    (d d₀ : Dialogs) (c : DialogCall) (name : Bytes)
    → c.create_error ≡ 0
    → (path : Bytes) → IsLastPart path name
    → Starts path d₀ (create_worker d c name) false
unfolding create_worker
create_worker-Starts d d₀ c name e path h =
    subst (λ (s : Started). Starts path d₀ s false)
      (sym (if_true (c.create_error == 0) _ _ (ground (arith, e)))) (refl, refl, h)

named-Starts :
    (d d₀ : Dialogs) (c : DialogCall) (name : Option Bytes)
    → c.create_error ≡ 0
    → length (suggested name) < path_max
    → Starts (suggested name) d₀ (named d c (requested_name name)) false
unfolding requested_name
named-Starts d d₀ c none e short = create_worker-Starts d d₀ c [] e [] (tt, ([], refl, inl refl))
named-Starts d d₀ c (some name) e short =
    subst (λ (o : Option Bytes). Starts name d₀ (named d c o) false)
      (sym (if_false (leb path_max (length name)) none _ (ground (arith, short))))
      (create_worker-Starts d d₀ c (base_name name) e name (base_name-IsLastPart name))

-- A call with a callback, with memory for its request and its worker, and with a name that is short
-- enough: while a worker runs, it returns EBUSY and changes nothing; otherwise, in particular as soon as
-- the worker before it has ended, it returns 0, a worker runs, and the name in its request is the last
-- part of the suggested one, behind its last slash.
pub wn_tools_dialog-Starts :
    (d : Dialogs) (c : DialogCall)
    → c.has_callback ≡ true
    → c.allocated ≡ true
    → c.create_error ≡ 0
    → length (suggested c.name) < path_max
    → Starts (suggested c.name) d (wn_tools_dialog d c) d.running
unfolding wn_tools_dialog
wn_tools_dialog-Starts d c e g k short =
    subst (λ (s : Started). Starts (suggested c.name) d s d.running)
      (sym (if_false (not c.has_callback) (d, einval, none) _ (ap not e))) (by_running d.running)
  where
    started : Started
    started =
        if not c.allocated
        then (joined d, enomem, none)
        else named (joined d) c (requested_name c.name)

    by_running :
        (running : Bool)
        → Starts (suggested c.name) d (if running then (d, ebusy, none) else started) running
    by_running true = (refl, refl, refl)
    by_running false =
        subst (λ (s : Started). Starts (suggested c.name) d s false)
          (sym (if_false (not c.allocated) (joined d, enomem, none) _ (ap not g)))
          (named-Starts (joined d) d c c.name k short)
