-- ===== src/Helpers/Transfer.antt =====
-- transfer() of app/helper_broker.c, with its deadline.
use whitenoise_linux.Base.{
  ℕ, zero, suc, List, [], ◌∷◌, ◌++◌, Bytes, Bool, true, false, Option, none, some, leb, ◌==◌, ◌||◌,
  if◌then◌else◌, ◌≡◌, refl, ap, arith, if_true, if_false, sym, ◌∙◌, ◌≢◌, min, ◌-◌, length, take,
  drop,
}
use whitenoise_linux.Broker.Channel.{
  Turn, interrupted, moved, broken, Channel, behind, transfer_turns,
}

-- What poll and then recv or send answer; the bytes that a call moves are counted as in Turn.
pub data PollAnswer : Type 0 where
  poll_ready : PollAnswer
  poll_interrupted : PollAnswer
  poll_expired : PollAnswer
  poll_failed : PollAnswer

pub data CallAnswer : Type 0 where
  call_moved : ℕ → CallAnswer
  call_interrupted : CallAnswer
  call_again : CallAnswer
  call_failed : CallAnswer

-- One turn of the loop: milliseconds(), where `none` is -1, `stopping`, and the two calls.
pub record Round : Type 0 where
  pub now : Option ℕ
  pub stopping : Bool
  pub poll_answer : PollAnswer
  pub call_answer : CallAnswer

-- now < 0 || now >= deadline
abbrev pub is_late : ℕ → Option ℕ → Bool
is_late deadline none = true
is_late deadline (some now) = leb deadline now

unfoldable pub call_turn : Bool → CallAnswer → Turn
call_turn timed (call_moved k) = moved k
call_turn timed call_interrupted = interrupted
call_turn timed call_again = if timed then interrupted else broken
call_turn timed call_failed = broken

unfoldable pub poll_turn : PollAnswer → CallAnswer → Turn
unfolding call_turn
poll_turn poll_ready answer = call_turn true answer
poll_turn poll_interrupted answer = interrupted
poll_turn poll_expired answer = broken
poll_turn poll_failed answer = broken

-- What a turn does to the loop: it goes round again, moves bytes, or returns -1.
unfoldable pub turn_of : ℕ → Round → Turn
unfolding poll_turn
turn_of deadline r =
    if deadline == 0
    then call_turn false r.call_answer
    else if r.stopping || is_late deadline r.now
    then broken
    else poll_turn r.poll_answer r.call_answer

abbrev pub turns_of : ℕ → List Round → List Turn
turns_of deadline [] = []
turns_of deadline (r ∷ rs) = turn_of deadline r ∷ turns_of deadline rs

-- A read with the deadline; 0 is no deadline.
unfoldable pub timed_transfer : ℕ → List Round → Bytes → ℕ → Option (Bytes × Channel)
unfolding turn_of
timed_transfer deadline rounds stream n = transfer_turns (turns_of deadline rounds) stream n

abbrev pub read_of : Option (Bytes × Channel) → Option Bytes
read_of none = none
read_of (some (d, c)) = some d

read_of-behind :
    (d : Bytes) (x y : Option (Bytes × Channel))
    → read_of x ≡ read_of y
    → read_of (behind d x) ≡ read_of (behind d y)
read_of-behind d none none e = refl
read_of-behind d none (some y) e = cc
read_of-behind d (some x) none e = cc
read_of-behind d (some (a, c)) (some (b, c')) e = ap (map_read d) e
  where
    map_read : Bytes → Option Bytes → Option Bytes
    map_read d none = none
    map_read d (some b) = some (d ++ b)

transfer_turns-broken :
    (before after : List Turn) (stream : Bytes) (n : ℕ)
    → read_of (transfer_turns (before ++ broken ∷ after) stream n)
      ≡ read_of (transfer_turns (before ++ broken ∷ []) stream n)
unfolding transfer_turns
transfer_turns-broken before after stream zero = refl
transfer_turns-broken [] after stream (suc n) = refl
transfer_turns-broken (interrupted ∷ before) after stream (suc n) =
    transfer_turns-broken before after stream (suc n)
transfer_turns-broken (moved k ∷ before) after [] (suc n) = refl
transfer_turns-broken (moved k ∷ before) after (b ∷ stream) (suc n) =
    let count = min k (min n (length stream)) in
    read_of-behind (b ∷ take count stream)
      (transfer_turns (before ++ broken ∷ after) (drop count stream) (n - count))
      (transfer_turns (before ++ broken ∷ []) (drop count stream) (n - count))
      (transfer_turns-broken before after (drop count stream) (n - count))
transfer_turns-broken (broken ∷ before) after stream (suc n) = refl

turns_of-append :
    (deadline : ℕ) (rs : List Round) (r : Round) (later : List Round)
    → turns_of deadline (rs ++ r ∷ later)
      ≡ turns_of deadline rs ++ turn_of deadline r ∷ turns_of deadline later
turns_of-append deadline [] r later = refl
turns_of-append deadline (x ∷ rs) r later =
    ap (◌∷◌ (turn_of deadline x)) (turns_of-append deadline rs r later)

-- A transfer with a deadline is over by the first turn in which the clock has reached it (or cannot be
-- read), or the launcher is stopping: what it reads, or that it fails, does not depend on any turn
-- behind that one.
pub timed_transfer_ends :
    (deadline : ℕ) (before after : List Round) (last : Round) (stream : Bytes) (n : ℕ)
    → deadline ≢ 0
    → (last.stopping || is_late deadline last.now) ≡ true
    → read_of (timed_transfer deadline (before ++ last ∷ after) stream n)
      ≡ read_of (timed_transfer deadline (before ++ last ∷ []) stream n)
unfolding timed_transfer
timed_transfer_ends deadline before after last stream n timed over =
    let stops : turn_of deadline last ≡ broken =
      if_false (deadline == 0) _ _ (ground (arith, timed))
      ∙ if_true (last.stopping || is_late deadline last.now) _ _ over in
    ap (λ (ts : List Turn). read_of (transfer_turns ts stream n))
      (turns_of-append deadline before last after
        ∙ ap (λ (t : Turn). turns_of deadline before ++ t ∷ turns_of deadline after) stops)
    ∙ transfer_turns-broken (turns_of deadline before) (turns_of deadline after) stream n
    ∙ sym (
        ap (λ (ts : List Turn). read_of (transfer_turns ts stream n))
          (turns_of-append deadline before last []
            ∙ ap (λ (t : Turn). turns_of deadline before ++ t ∷ []) stops))
