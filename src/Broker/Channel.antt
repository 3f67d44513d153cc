-- ===== src/Broker/Channel.antt =====
-- The two loops of transfer() in app/tool_broker.c, over what read() and write() answer.
use mathlib.Core.Option.{some-injective}
use whitenoise_linux.Base.{
  ℕ, zero, suc, ◌-◌, ◌≤◌, min, List, [], ◌∷◌, ◌++◌, Bytes, Bool, true, false, Option, none, some,
  length, take, drop, ◌≡◌, refl, sym, ap, ◌∙◌, arith, append_assoc, take-append-drop, subst,
  length-append, length-take, length-drop, take-append_le, drop-append_le,
}

-- What one call answers: EINTR, at most `k + 1` bytes moved (no more than were asked for, nor than
-- are there; the end of the stream moves none), or another error.
pub data Turn : Type 0 where
  interrupted : Turn
  moved : ℕ → Turn
  broken : Turn

-- The end of a channel that is read: the bytes that the peer writes before it closes its end, and
-- the answers to come. When they end, the call waits.
pub record Channel : Type 0 where
  pub stream : Bytes
  pub turns : List Turn

-- One more piece in front of what the rest of the loop reads.
abbrev pub behind : Bytes → Option (Bytes × Channel) → Option (Bytes × Channel)
behind d none = none
behind d (some (rest, c)) = some (d ++ rest, c)

-- transfer(fd, buffer, n, 0): the bytes read and the channel behind them, or `none` for -1 and for
-- a call that waits for ever.
unfoldable pub transfer_turns : List Turn → Bytes → ℕ → Option (Bytes × Channel)
transfer_turns turns stream zero = some ([], record { stream = stream; turns = turns })
transfer_turns [] stream (suc n) = none
transfer_turns (interrupted ∷ turns) stream (suc n) = transfer_turns turns stream (suc n)
transfer_turns (moved k ∷ turns) [] (suc n) = none
transfer_turns (moved k ∷ turns) (b ∷ stream) (suc n) =
    let count = min k (min n (length stream)) in
    behind (b ∷ take count stream) (transfer_turns turns (drop count stream) (n - count))
transfer_turns (broken ∷ turns) stream (suc n) = none

unfoldable pub transfer : Channel → ℕ → Option (Bytes × Channel)
unfolding transfer_turns
transfer c n = transfer_turns c.turns c.stream n

-- The calls that move bytes, and whether none fails.
abbrev pub moves : List Turn → ℕ
moves [] = 0
moves (interrupted ∷ turns) = moves turns
moves (moved k ∷ turns) = suc (moves turns)
moves (broken ∷ turns) = moves turns

abbrev pub IsSound : List Turn → Type 0
IsSound [] = Unit {0}
IsSound (interrupted ∷ turns) = IsSound turns
IsSound (moved k ∷ turns) = IsSound turns
IsSound (broken ∷ turns) = ⊥

-- A channel whose calls do not fail, and that is served until its stream is read.
pub record IsPatient (c : Channel) : Type 0 where
  pub sound : IsSound c.turns
  pub served : length c.stream ≤ moves c.turns

-- transfer(fd, buffer, n, 1): whether it returns 0, and the bytes that have gone out.
unfoldable pub write_turns : List Turn → Bytes → Bool × Bytes
write_turns turns [] = (true, [])
write_turns [] (b ∷ d) = (false, [])
write_turns (interrupted ∷ turns) (b ∷ d) = write_turns turns (b ∷ d)
write_turns (moved k ∷ turns) (b ∷ d) =
    let count = min k (length d) in
    let (sent, out) = write_turns turns (drop count d) in (sent, b ∷ take count d ++ out)
write_turns (broken ∷ turns) (b ∷ d) = (false, [])

-- A write goes out whole, or stops with a part of it that stands at its front.
pub write_turns-prefix :
    (turns : List Turn) (d : Bytes)
    → let (sent, out) = write_turns turns d in
      (left : Bytes) × (out ++ left ≡ d) × (sent ≡ true → left ≡ [])
unfolding write_turns
write_turns-prefix turns [] = ([], refl, λ _. refl)
write_turns-prefix [] (b ∷ d) = (b ∷ d, refl, λ e. cc)
write_turns-prefix (interrupted ∷ turns) (b ∷ d) = write_turns-prefix turns (b ∷ d)
write_turns-prefix (moved k ∷ turns) (b ∷ d) =
    let count = min k (length d) in
    let (left, whole, all) = write_turns-prefix turns (drop count d) in
    (
      left,
      ap (◌∷◌ b) (
          append_assoc (take count d) _ left
          ∙ ap (λ (t : Bytes). take count d ++ t) whole
          ∙ take-append-drop count d),
      all,
    )
write_turns-prefix (broken ∷ turns) (b ∷ d) = (b ∷ d, refl, λ e. cc)

behind-some :
    (d : Bytes) (x : Option (Bytes × Channel)) (read : Bytes) (c' : Channel)
    → behind d x ≡ some (read, c')
    → (rest : Bytes) × (read ≡ d ++ rest) × (x ≡ some (rest, c'))
behind-some d none read c' e = cc
behind-some d (some (rest, c)) read c' e =
    let e' = some-injective _ _ e in
    (
      rest,
      sym (ap (λ (t : Bytes × Channel). t.0) e'),
      ap (λ (t : Bytes × Channel). some (rest, t.1)) e',
    )

transfer_turns-exact :
    (turns : List Turn) (stream : Bytes) (n : ℕ) (d : Bytes) (c' : Channel)
    → transfer_turns turns stream n ≡ some (d, c')
    → (d ++ c'.stream ≡ stream) × (length d ≡ n)
unfolding transfer_turns
transfer_turns-exact turns stream zero d c' e =
    let e' = some-injective _ _ e in
    let empty : [] ≡ d = ap (λ (t : Bytes × Channel). t.0) e' in
    let same : stream ≡ c'.stream = ap (λ (t : Bytes × Channel). t.1.stream) e' in
    subst (λ (t : Bytes). (t ++ c'.stream ≡ stream) × (length t ≡ 0)) empty (sym same, refl)
transfer_turns-exact [] stream (suc n) d c' e = cc
transfer_turns-exact (interrupted ∷ turns) stream (suc n) d c' e =
    transfer_turns-exact turns stream (suc n) d c' e
transfer_turns-exact (moved k ∷ turns) [] (suc n) d c' e = cc
transfer_turns-exact (moved k ∷ turns) (b ∷ stream) (suc n) d c' e =
    let count = min k (min n (length stream)) in
    let (rest, read, later) = behind-some (b ∷ take count stream) _ d c' e in
    let (whole, counted) =
      transfer_turns-exact turns (drop count stream) (n - count) rest c' later in
    rw read (
      ap (◌∷◌ b) (
          append_assoc (take count stream) rest _
          ∙ ap (λ (t : Bytes). take count stream ++ t) whole
          ∙ take-append-drop count stream),
      omega (arith, length-append (take count stream) rest, length-take count stream),
    )
transfer_turns-exact (broken ∷ turns) stream (suc n) d c' e = cc

-- A read that succeeds gave exactly the next `n` bytes, however they came.
pub transfer-exact :
    (c : Channel) (n : ℕ) (d : Bytes) (c' : Channel)
    → transfer c n ≡ some (d, c')
    → (d ++ c'.stream ≡ c.stream) × (length d ≡ n)
unfolding transfer
transfer-exact c n d c' e = transfer_turns-exact c.turns c.stream n d c' e

-- What a read of the front `d` of a stream gives on a patient channel.
abbrev pub Delivers : Channel → Bytes → Bytes → Option (Bytes × Channel) → Type 0
Delivers c d rest x = (c' : Channel) × (x ≡ some (d, c')) × (c'.stream ≡ rest) × IsPatient c'

transfer_turns-patient :
    (turns : List Turn) (d rest : Bytes)
    → IsSound turns
    → length (d ++ rest) ≤ moves turns
    → (turns' : List Turn) × (transfer_turns turns (d ++ rest) (length d)
        ≡ some (d, record { stream = rest; turns = turns' }))
      × IsSound turns'
      × (length rest ≤ moves turns')
unfolding transfer_turns
transfer_turns-patient turns [] rest s m = (turns, refl, s, m)
transfer_turns-patient [] (b ∷ d) rest s m = absurd (omega arith)
transfer_turns-patient (interrupted ∷ turns) (b ∷ d) rest s m =
    transfer_turns-patient turns (b ∷ d) rest s m
transfer_turns-patient (broken ∷ turns) (b ∷ d) rest s m = absurd s
transfer_turns-patient (moved k ∷ turns) (b ∷ d) rest s m =
    let count = min k (min (length d) (length (d ++ rest))) in
    let within : count ≤ length d = omega arith in
    let front : take count (d ++ rest) ≡ take count d = take-append_le count d rest within in
    let back : drop count (d ++ rest) ≡ drop count d ++ rest = drop-append_le count d rest within in
    let wanted : length d - count ≡ length (drop count d) = omega (arith, length-drop count d) in
    let (turns', read, sound, served) = transfer_turns-patient turns (drop count d) rest s (
      omega
        (arith, length-append d rest, length-append (drop count d) rest, length-drop count d)) in
    (
      turns',
      rw (front, back, wanted, read)
          (ap (λ (t : Bytes). some (b ∷ t, record { stream = rest; turns = turns' }))
            (take-append-drop count d)),
      sound,
      served,
    )

-- A patient channel delivers what its stream begins with, and stays patient.
pub transfer-patient :
    (c : Channel) (d rest : Bytes)
    → IsPatient c
    → c.stream ≡ d ++ rest
    → Delivers c d rest (transfer c (length d))
unfolding transfer
transfer-patient c d rest p e =
    let (turns', read, sound, served) =
      transfer_turns-patient c.turns d rest p.sound
        (subst (λ (t : Bytes). length t ≤ moves c.turns) e p.served) in
    (
      record { stream = rest; turns = turns' },
      rw e read,
      refl,
      record { sound = sound; served = served },
    )
