-- ===== src/Tests/Location.antt =====
-- Runs of the location helper, app/location.c, and instances of its theorems.
use whitenoise_linux.Base.{List, [], ◌∷◌, Bytes, true, false, some, codes, same_bytes, ◌≡◌, refl}
use whitenoise_linux.Broker.Strings.{after_slash}
use whitenoise_linux.Location.{
  Bus, start, lookup, replace, within, printed, closed_objects, maybe_finish, response_signal,
  location_signal, bus_ready, session_done, start_done,
}
use whitenoise_linux.Location.Events.{
  Event, response, location_updated, session_answer, start_answer, bus_answer, deadline_passed,
  step, run,
}
use whitenoise_linux.Location.Events.Published.{IsPermitted, printed-IsPermitted}
use whitenoise_linux.Location.Events.Ends.{run-IsDecided, run-IsFinal}

abbrev bus : Bus
bus = record { unique_name = codes ":1.42"; uuid = codes "a-b" }

abbrev session : Bytes
session = codes "/s/1"

abbrev request : Bytes
request = codes "/r/1"

-- 52.5 and 13.375
abbrev update : Event
update = location_updated (some (session, some 4632585535448154112, some 4623719073681768448))

abbrev begun : List Event
begun = session_answer (some session) ∷ bus_answer (some bus) ∷ []

-- Start is called with the token of the request that is expected.
starts : (run begun).pending ≡ some (start session (some (codes "wn_location_a_b")))
unfolding run step bus_ready session_done after_slash
starts = refl

-- The fix first, then the response, then the answer to Start.
abbrev late_answer : List Event
late_answer = start_answer (some request) ∷ response request (some 0) ∷ update ∷ begun

late_answer-printed :
    printed (run late_answer).location ≡ some (4632585535448154112, 4623719073681768448)
unfolding run step bus_ready session_done start_done response_signal location_signal maybe_finish
    lookup replace within printed same_bytes
late_answer-printed = refl

-- A response to another request is kept, and does not count.
abbrev other : List Event
other = response (codes "/r/2") (some 0) ∷ start_answer (some request) ∷ update ∷ begun

other_waits :
    ((run other).location.finished ≡ false)
    × (closed_objects (run other).location ≡ some request ∷ some session ∷ [])
unfolding run step bus_ready session_done start_done response_signal location_signal maybe_finish
    lookup replace within same_bytes closed_objects
other_waits = (refl, refl)

-- Consent, and coordinates that are not on the globe.
abbrev far : List Event
far =
    location_updated (some (session, some 4640537203540230145, some 0))
    ∷ response request (some 0)
    ∷ start_answer (some request)
    ∷ begun

far_waits :
    ((run far).location.finished ≡ false) × (closed_objects (run far).location ≡ some session ∷ [])
unfolding run step bus_ready session_done start_done response_signal location_signal maybe_finish
    lookup replace within same_bytes closed_objects
far_waits = (refl, refl)

printed-IsPermitted_example : IsPermitted late_answer 4632585535448154112 4623719073681768448
printed-IsPermitted_example =
    printed-IsPermitted late_answer 4632585535448154112 4623719073681768448 late_answer-printed

run-IsDecided_example : (run late_answer).location.finished ≡ true
unfolding run step bus_ready session_done start_done response_signal location_signal maybe_finish
    lookup replace within same_bytes
run-IsDecided_example = run-IsDecided late_answer request 0 refl refl refl refl

late_answer_finished : (run late_answer).location.finished ≡ true
unfolding run step bus_ready session_done start_done response_signal location_signal maybe_finish
    lookup replace within same_bytes
late_answer_finished = refl

run-IsFinal_example :
    (run (deadline_passed ∷ response request (some 1) ∷ late_answer)).location
    ≡ (run late_answer).location
run-IsFinal_example =
    run-IsFinal late_answer (deadline_passed ∷ response request (some 1) ∷ []) late_answer_finished
