-- ===== src/Decoder/Start.antt =====
-- decoder_start and image_high_fd of app/decoder_ipc.c, in their POSIX form, by the descriptors that
-- they open and close.
use whitenoise_linux.Base.{
  ℕ, ◌+◌, List, [], ◌∷◌, ◌++◌, Bool, true, false, ◌&&◌, Option, none, some, ltb, ◌==◌,
  if◌then◌else◌, ◌≡◌, refl, arith, Bool-cases, Option-cases, inl, inr, inl, inr,
}
use whitenoise_linux.Decoder.Process.{Process}

-- A descriptor is opened, or closed.
pub data Handle : Type 0 where
  opens closes : ℕ → Handle

-- What the system answers: socketpair, the three fcntl(F_DUPFD_CLOEXEC), open of /dev/null, whether
-- the socket can be set up, and image_spawn.
pub record Start : Type 0 where
  pub pair : Option (ℕ × ℕ)
  pub parent_copy : Option ℕ
  pub child_copy : Option ℕ
  pub null_copy : Option ℕ
  pub null : Option ℕ
  pub nonblocking : Bool
  pub child : Option ℕ

abbrev pub opened : Option ℕ → List Handle
opened none = []
opened (some fd) = opens fd ∷ []

abbrev pub shut : Option ℕ → List Handle
shut none = []
shut (some fd) = closes fd ∷ []

-- image_high_fd: a descriptor above stderr, and what was done for it; `copy` is fcntl's answer.
unfoldable pub image_high_fd : Option ℕ → Option ℕ → Option ℕ × List Handle
image_high_fd none copy = (none, [])
image_high_fd (some fd) copy =
    if ltb 2 fd then (some fd, []) else (copy, opened copy ++ closes fd ∷ [])

abbrev pub is_open : Option ℕ → Bool
is_open none = false
is_open (some fd) = true

-- The part of decoder_start behind `done`, after what was closed is known.
abbrev pub done : Option ℕ → Option ℕ → Option ℕ → List Handle
done parent child null = shut parent ++ (shut child ++ shut null)

-- The child, if the descriptors and the socket are ready and it is spawned.
abbrev pub spawned : Start → Option ℕ → Option ℕ → Option ℕ → Option ℕ
spawned a parent child null =
    if is_open parent && is_open child && is_open null && a.nonblocking then a.child else none

-- The end of decoder_start, by the child: its process keeps the parent's socket.
unfoldable pub finish : Option ℕ → Option ℕ → Option ℕ → Option ℕ → Option Process × List Handle
finish none parent child null = (none, done parent child null)
finish (some pid) parent child null =
    (some (record { child = some pid; socket = parent; reaped = false }), done none child null)

-- decoder_start: the process, or `none` for 0, and the descriptors opened and closed.
unfoldable pub decoder_start : Start → Option Process × List Handle
decoder_start a = elim a.pair [
  | none ↦ (none, [])
  | some (p, c) ↦
      let parent = image_high_fd (some p) a.parent_copy in
      let child = image_high_fd (some c) a.child_copy in
      let null = image_high_fd a.null a.null_copy in
      let end = finish (spawned a parent.0 child.0 null.0) parent.0 child.0 null.0 in
      (end.0, opens p ∷ opens c ∷ (parent.1 ++ (child.1 ++ (opened a.null ++ (null.1 ++ end.1)))))
]

-- How often a descriptor is opened and closed.
unfoldable pub opens_of : ℕ → List Handle → ℕ
opens_of fd [] = 0
opens_of fd (opens n ∷ es) = (if n == fd then 1 else 0) + opens_of fd es
opens_of fd (closes n ∷ es) = opens_of fd es

unfoldable pub closes_of : ℕ → List Handle → ℕ
closes_of fd [] = 0
closes_of fd (opens n ∷ es) = closes_of fd es
closes_of fd (closes n ∷ es) = (if n == fd then 1 else 0) + closes_of fd es

abbrev pub holds : ℕ → Option ℕ → ℕ
holds fd none = 0
holds fd (some n) = if n == fd then 1 else 0

abbrev pub socket_of : Option Process → Option ℕ
socket_of none = none
socket_of (some p) = p.socket

opens_of-append :
    (fd : ℕ) (xs ys : List Handle) → opens_of fd (xs ++ ys) ≡ opens_of fd xs + opens_of fd ys
unfolding opens_of
opens_of-append fd [] ys = omega arith
opens_of-append fd (opens n ∷ xs) ys = omega (arith, opens_of-append fd xs ys)
opens_of-append fd (closes n ∷ xs) ys = opens_of-append fd xs ys

closes_of-append :
    (fd : ℕ) (xs ys : List Handle) → closes_of fd (xs ++ ys) ≡ closes_of fd xs + closes_of fd ys
unfolding closes_of
closes_of-append fd [] ys = omega arith
closes_of-append fd (opens n ∷ xs) ys = closes_of-append fd xs ys
closes_of-append fd (closes n ∷ xs) ys = omega (arith, closes_of-append fd xs ys)

-- Opened and held before is closed and held after.
abbrev Balanced : ℕ → Option ℕ → Option ℕ → List Handle → Type 0
Balanced fd before after es = opens_of fd es + holds fd before ≡ closes_of fd es + holds fd after

opened_count :
    (fd : ℕ) (x : Option ℕ) → (opens_of fd (opened x) ≡ holds fd x) × (closes_of fd (opened x) ≡ 0)
unfolding opens_of closes_of
opened_count fd none = (refl, refl)
opened_count fd (some n) = (omega arith, refl)

shut_count :
    (fd : ℕ) (x : Option ℕ) → (closes_of fd (shut x) ≡ holds fd x) × (opens_of fd (shut x) ≡ 0)
unfolding opens_of closes_of
shut_count fd none = (refl, refl)
shut_count fd (some n) = (omega arith, refl)

image_high_fd-Balanced :
    (fd : ℕ) (x copy : Option ℕ) → Balanced fd x (image_high_fd x copy).0 (image_high_fd x copy).1
unfolding image_high_fd opens_of closes_of
image_high_fd-Balanced fd none copy = refl
image_high_fd-Balanced fd (some n) copy = elim (Bool-cases (ltb 2 n)) [
  | inl high ↦ rw high (omega arith)
  | inr low ↦ rw low (
      omega (
        arith,
        opened_count fd copy,
        opens_of-append fd (opened copy) (closes n ∷ []),
        closes_of-append fd (opened copy) (closes n ∷ []),
      ))
]

done_count :
    (fd : ℕ) (parent child null : Option ℕ)
    → (opens_of fd (done parent child null) ≡ 0)
      × (closes_of fd (done parent child null) ≡ holds fd parent + holds fd child + holds fd null)
done_count fd parent child null = omega (
  arith,
  opens_of-append fd (shut parent) (shut child ++ shut null),
  opens_of-append fd (shut child) (shut null),
  closes_of-append fd (shut parent) (shut child ++ shut null),
  closes_of-append fd (shut child) (shut null),
  shut_count fd parent,
  shut_count fd child,
  shut_count fd null,
)

finish_count :
    (fd : ℕ) (pid parent child null : Option ℕ)
    → let end = finish pid parent child null in
      (opens_of fd end.1 ≡ 0)
      × (closes_of fd end.1 + holds fd (socket_of end.0)
          ≡ holds fd parent + holds fd child + holds fd null)
unfolding finish
finish_count fd none parent child null = omega (arith, done_count fd parent child null)
finish_count fd (some pid) parent child null = omega (arith, done_count fd none child null)

-- The parts of decoder_start, by what socketpair gave.
pub started_balanced :
    (a : Start) (fd p c : ℕ)
    → let parent = image_high_fd (some p) a.parent_copy in
      let child = image_high_fd (some c) a.child_copy in
      let null = image_high_fd a.null a.null_copy in
      let end = finish (spawned a parent.0 child.0 null.0) parent.0 child.0 null.0 in
      let trace =
        opens p ∷ opens c ∷ (parent.1 ++ (child.1 ++ (opened a.null ++ (null.1 ++ end.1)))) in
      opens_of fd trace ≡ closes_of fd trace + holds fd (socket_of end.0)
unfolding opens_of closes_of
started_balanced a fd p c =
    let parent = image_high_fd (some p) a.parent_copy in
    let child = image_high_fd (some c) a.child_copy in
    let null = image_high_fd a.null a.null_copy in
    let end = finish (spawned a parent.0 child.0 null.0) parent.0 child.0 null.0 in
    omega (
      arith,
      opens_of-append fd parent.1 (child.1 ++ (opened a.null ++ (null.1 ++ end.1))),
      opens_of-append fd child.1 (opened a.null ++ (null.1 ++ end.1)),
      opens_of-append fd (opened a.null) (null.1 ++ end.1),
      opens_of-append fd null.1 end.1,
      closes_of-append fd parent.1 (child.1 ++ (opened a.null ++ (null.1 ++ end.1))),
      closes_of-append fd child.1 (opened a.null ++ (null.1 ++ end.1)),
      closes_of-append fd (opened a.null) (null.1 ++ end.1),
      closes_of-append fd null.1 end.1,
      image_high_fd-Balanced fd (some p) a.parent_copy,
      image_high_fd-Balanced fd (some c) a.child_copy,
      image_high_fd-Balanced fd a.null a.null_copy,
      opened_count fd a.null,
      finish_count fd (spawned a parent.0 child.0 null.0) parent.0 child.0 null.0,
    )

none_yet : (fd : ℕ) → (opens_of fd [] ≡ 0) × (closes_of fd [] ≡ 0)
unfolding opens_of closes_of
none_yet fd = (refl, refl)

-- decoder_start leaks no descriptor: each one is closed as often as it is opened, but for the socket
-- of the process that it returns, whatever fails.
pub decoder_start_balanced :
    (a : Start) (fd : ℕ)
    → opens_of fd (decoder_start a).1
      ≡ closes_of fd (decoder_start a).1 + holds fd (socket_of (decoder_start a).0)
unfolding decoder_start
decoder_start_balanced a fd = elim (Option-cases a.pair) [
  | inl failed ↦ rw failed nothing
  | inr ((p, c), made) ↦ rw made (started_balanced a fd p c)
]
  where
    nothing : opens_of fd [] ≡ closes_of fd [] + 0
    nothing = omega (arith, none_yet fd)
