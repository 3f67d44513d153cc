-- ===== src/Helpers/Jobs.antt =====
-- The table of launch_loop (app/helper_broker.c): a process for each request, and its end.
pub mod Waited
use whitenoise_linux.Base.{
  ℕ, zero, suc, ◌+◌, List, [], ◌∷◌, ◌++◌, Bool, true, false, not, Option, none, some, ltb, ◌==◌,
  ◌||◌, if◌then◌else◌, length, replicate, ◌≡◌, refl,
}

abbrev pub job_count : ℕ
job_count = 128

-- jobs[i]: a process, or 0.
abbrev pub Jobs : Type 0
Jobs = List (Option ℕ)

abbrev pub no_jobs : Jobs
no_jobs = replicate job_count none

-- The table, and the processes that have been forked and waited for.
pub record Launcher : Type 0 where
  pub jobs : Jobs
  pub forked : List ℕ
  pub waited : List ℕ

-- The first loop: waitpid with WNOHANG for each process in the table; what is left, and those waited
-- for.
unfoldable pub reap : (ℕ → Bool) → Jobs → Jobs × List ℕ
reap finished [] = ([], [])
reap finished (none ∷ jobs) = let (left, gone) = reap finished jobs in (none ∷ left, gone)
reap finished (some pid ∷ jobs) =
    let (left, gone) = reap finished jobs in
    if finished pid then (none ∷ left, pid ∷ gone) else (some pid ∷ left, gone)

-- free_slot: the first place that is 0, or the length of the table.
unfoldable pub free_slot : Jobs → ℕ
free_slot [] = 0
free_slot (none ∷ jobs) = 0
free_slot (some pid ∷ jobs) = suc (free_slot jobs)

-- jobs[i] = child
unfoldable pub set : Jobs → ℕ → Option ℕ → Jobs
set [] i job = []
set (j ∷ jobs) zero job = job ∷ jobs
set (j ∷ jobs) (suc i) job = j ∷ set jobs i job

-- What the system answers in one round: which processes have ended, ppoll, what receive_channel
-- returns (`none` for -1), and fork.
pub data PollAnswer : Type 0 where
  ready : PollAnswer
  interrupted : PollAnswer
  failed : PollAnswer

pub record Round : Type 0 where
  pub stopping : Bool
  pub finished : ℕ → Bool
  pub poll : PollAnswer
  pub received : Option ℕ
  pub fork : Option ℕ

-- The fork of a round. With a full table it is not tried.
unfoldable pub launch : Launcher → Option ℕ → Launcher
unfolding free_slot set
launch l none = l
launch l (some child) =
    if free_slot l.jobs == job_count
    then l
    else record l { jobs = set l.jobs (free_slot l.jobs) (some child); forked = child ∷ l.forked }

-- Whether the loop goes on, and the launcher behind the round.
abbrev pub served : Launcher → Round → Option ℕ → Bool × Launcher
served l r none = (false, l)
served l r (some zero) = (true, l)
served l r (some (suc n)) = (true, launch l r.fork)

abbrev pub polled : Launcher → Round → PollAnswer → Bool × Launcher
polled l r interrupted = (true, l)
polled l r failed = (false, l)
polled l r ready = served l r r.received

abbrev pub reaped : Launcher → Round → Launcher
reaped l r =
    let (left, gone) = reap r.finished l.jobs in record l { jobs = left; waited = gone ++ l.waited }

unfoldable pub round : Launcher → Round → Bool × Launcher
unfolding reap launch
round l r = if r.stopping then (false, l) else polled (reaped l r) r r.poll

-- The processes in the table.
abbrev pub filled : Jobs → List ℕ
filled [] = []
filled (none ∷ jobs) = filled jobs
filled (some pid ∷ jobs) = pid ∷ filled jobs

-- Behind the loop: each process in the table is sent SIGTERM, and then waited for.
unfoldable pub stop_jobs : Launcher → Launcher
stop_jobs l = record l { waited = filled l.jobs ++ l.waited }

abbrev pub continue : Bool × Launcher → (Launcher → Option Launcher) → Option Launcher
continue (true, l) rest = rest l
continue (false, l) rest = some (stop_jobs l)

-- launch_loop over the rounds to come; `none` where it still runs when they end.
unfoldable pub launch_loop : List Round → Launcher → Option Launcher
unfolding round stop_jobs
launch_loop [] l = none
launch_loop (r ∷ rounds) l = continue (round l r) (launch_loop rounds)

abbrev pub new_launcher : Launcher
new_launcher = record { jobs = no_jobs; forked = []; waited = [] }
