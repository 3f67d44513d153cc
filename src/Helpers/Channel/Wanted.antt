-- ===== src/Helpers/Channel/Wanted.antt =====
-- The descriptors that receive_channel hands on are those that its mask announces, and those that
-- send_channel has sent (app/helper_broker.c).
use mathlib.Core.Option.{some-injective}
use whitenoise_linux.Base.{
  ℕ, suc, ◌<◌, List, [], ◌∷◌, ◌++◌, Bool, true, false, not, some, ltb, ◌==◌, ◌||◌, if◌then◌else◌,
  length, ◌≡◌, refl, sym, ap, ◌∙◌, arith, inl, inr, Bool-cases, ==_iff, if_true, if_false, subst,
  ◌⊎◌,
}
use whitenoise_linux.Helpers.Channel.{
  Header, got, Collected, Duplicate, Taken, Flags, is_open, is_bad, other_error, collect_descriptor,
  collect_descriptors, collect_header, collect, move, taken, receive_channel, wanted,
  first_collected, send_channel,
}
use whitenoise_linux.Helpers.Channel.Closed.{move-IsMoved}

collect_descriptors-invalid :
    (fds : List ℕ) (s : Collected) → s.invalid ≡ true → (collect_descriptors s fds).invalid ≡ true
unfolding collect_descriptors collect_descriptor
collect_descriptors-invalid [] s e = e
collect_descriptors-invalid (fd ∷ fds) s e =
    collect_descriptors-invalid fds _ (stays (length s.kept == 4))
  where
    stays :
        (full : Bool)
        → (if full
            then record s { closed = s.closed ++ fd ∷ []; invalid = true }
            else record s { kept = s.kept ++ fd ∷ [] }).invalid
          ≡ true
    stays true = refl
    stays false = e

collect-invalid :
    (hs : List Header) (s : Collected) → s.invalid ≡ true → (collect s hs).invalid ≡ true
unfolding collect collect_header
collect-invalid [] s e = e
collect-invalid (h ∷ hs) s e = collect-invalid hs _ (stays h.is_rights)
  where
    stays :
        (rights : Bool)
        → (if rights
            then collect_descriptors (record s { invalid = s.invalid || h.partial }) h.descriptors
            else record s { invalid = true }).invalid
          ≡ true
    stays true = collect_descriptors-invalid h.descriptors _ (ap (λ (b : Bool). b || h.partial) e)
    stays false = refl

move-invalid : (duplicate : Duplicate) (fds : List ℕ) → (move duplicate true fds).invalid ≡ true
unfolding move
move-invalid duplicate [] = refl
move-invalid duplicate (fd ∷ fds) = refl

-- Where anything is handed on, it is exactly what the mask announces, and the mask names none but the
-- descriptors 0 to 2.
pub receive_channel-wanted :
    (duplicate : Duplicate) (more mask : ℕ) (truncated : Bool) (headers : List Header) (n : ℕ)
    → (receive_channel duplicate (got more mask truncated headers)).result ≡ some (suc n)
    → let t = receive_channel duplicate (got more mask truncated headers) in
      (t.result ≡ some (length t.descriptors)) × (length t.descriptors ≡ wanted mask) × (mask < 8)
unfolding receive_channel taken
receive_channel-wanted duplicate more mask truncated headers n e =
    let s = collect (first_collected more mask truncated) headers in
    let flag = s.invalid || not (length s.kept == wanted mask) in
    let m = move duplicate flag s.kept in
    elim (Bool-cases m.invalid) [
      | inl bad ↦ absurd (cc (sym (ap (λ (t : Taken). t.result) (if_true m.invalid _ _ bad)) ∙ e))
      | inr good ↦ elim (Bool-cases flag) [
        | inl wrong ↦ cc (
          good,
          ap (λ (b : Bool). (move duplicate b s.kept).invalid) wrong,
          move-invalid duplicate s.kept,
        )
        | inr right ↦
            subst
              (λ (t : Taken).
                (t.result ≡ some (length t.descriptors))
                × (length t.descriptors ≡ wanted mask)
                × (mask < 8))
              (sym (if_false m.invalid _ _ good))
              (
                refl,
                (move-IsMoved duplicate s.kept flag).1 good
                    ∙ (==_iff (length s.kept) (wanted mask)).0 (second s.invalid _ right),
                small (Bool-cases (first_collected more mask truncated).invalid)
                    (first s.invalid _ right),
              )
      ]
    ]
  where
    first : (x y : Bool) → (x || not y) ≡ false → x ≡ false
    first false y h = refl
    first true y h = cc

    second : (x y : Bool) → (x || not y) ≡ false → y ≡ true
    second false true h = refl
    second false false h = cc
    second true y h = cc

    below : (x y z : Bool) → (x || y || z) ≡ false → ltb 7 mask ≡ z → mask < 8
    below false false false h e = ground arith
    below true y z h e = cc
    below false true z h e = cc
    below false false true h e = cc

    small :
        (((first_collected more mask truncated).invalid ≡ true)
          ⊎ ((first_collected more mask truncated).invalid ≡ false))
        → (collect (first_collected more mask truncated) headers).invalid ≡ false
        → mask < 8
    small (inl bad) h = cc (collect-invalid headers (first_collected more mask truncated) bad)
    small (inr good) h = below (not (more == 0)) truncated (ltb 7 mask) good refl

abbrev pub Announced : List ℕ × ℕ → Type 0
Announced (fds, mask) = (wanted mask ≡ length fds) × (mask < 8)

-- What send_channel sends is announced by its mask.
pub send_channel-wanted :
    (channel : ℕ) (zeroth first second : Flags) (message : List ℕ × ℕ)
    → send_channel channel zeroth first second ≡ some message
    → Announced message
unfolding send_channel
send_channel-wanted channel is_open is_open is_open message e =
    subst Announced (some-injective _ _ e) (refl, omega arith)
send_channel-wanted channel is_open is_open is_bad message e =
    subst Announced (some-injective _ _ e) (refl, omega arith)
send_channel-wanted channel is_open is_open other_error message e = cc
send_channel-wanted channel is_open is_bad is_open message e =
    subst Announced (some-injective _ _ e) (refl, omega arith)
send_channel-wanted channel is_open is_bad is_bad message e =
    subst Announced (some-injective _ _ e) (refl, omega arith)
send_channel-wanted channel is_open is_bad other_error message e = cc
send_channel-wanted channel is_open other_error second message e = cc
send_channel-wanted channel is_bad is_open is_open message e =
    subst Announced (some-injective _ _ e) (refl, omega arith)
send_channel-wanted channel is_bad is_open is_bad message e =
    subst Announced (some-injective _ _ e) (refl, omega arith)
send_channel-wanted channel is_bad is_open other_error message e = cc
send_channel-wanted channel is_bad is_bad is_open message e =
    subst Announced (some-injective _ _ e) (refl, omega arith)
send_channel-wanted channel is_bad is_bad is_bad message e =
    subst Announced (some-injective _ _ e) (refl, omega arith)
send_channel-wanted channel is_bad is_bad other_error message e = cc
send_channel-wanted channel is_bad other_error second message e = cc
send_channel-wanted channel other_error first second message e = cc
