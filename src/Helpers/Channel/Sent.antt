-- ===== src/Helpers/Channel/Sent.antt =====
-- What send_channel sends is what receive_channel takes (app/helper_broker.c).
use whitenoise_linux.Base.{
  ℕ, ◌+◌, ◌≤◌, List, [], ◌∷◌, ◌++◌, Bool, true, false, not, some, ◌==◌, ◌||◌, length, All, ◌≡◌,
  refl, sym, ap, ◌∙◌, arith, append-nil, append_assoc, length-append, if_false, subst, ==_iff,
}
use whitenoise_linux.Helpers.Channel.{
  Header, got, Collected, Duplicate, Taken, Flags, collect_descriptor, collect_descriptors,
  collect_header, collect, move, taken, receive_channel, wanted, first_collected, send_channel,
}
use whitenoise_linux.Helpers.Channel.Closed.{move-IsMoved}
use whitenoise_linux.Helpers.Channel.Wanted.{send_channel-wanted}

-- The message as it comes, when the kernel has given its descriptors these numbers.
abbrev pub rights : List ℕ → Header
rights fds = record { is_rights = true; descriptors = fds; partial = false }

abbrev pub IsDuplicated : Duplicate → ℕ → Type 0
IsDuplicated duplicate fd = (new : ℕ) × (duplicate fd ≡ some new)

collect_few :
    (fds : List ℕ) (s : Collected)
    → length s.kept + length fds ≤ 4
    → collect_descriptors s fds ≡ record s { kept = s.kept ++ fds }
unfolding collect_descriptors collect_descriptor
collect_few [] s room = ap (λ (l : List ℕ). record s { kept = l }) (sym (append-nil s.kept))
collect_few (fd ∷ fds) s room =
    ap (λ (t : Collected). collect_descriptors t fds)
      (if_false (length s.kept == 4) _ (record s { kept = s.kept ++ fd ∷ [] }) (ground arith))
    ∙ collect_few fds (record s { kept = s.kept ++ fd ∷ [] })
        (omega (arith, length-append s.kept (fd ∷ [])))
    ∙ ap (λ (l : List ℕ). record s { kept = l }) (append_assoc s.kept (fd ∷ []) fds)

move_none_lost :
    (duplicate : Duplicate) (fds : List ℕ)
    → All (IsDuplicated duplicate) fds
    → (move duplicate false fds).invalid ≡ false
unfolding move
move_none_lost duplicate [] h = refl
move_none_lost duplicate (fd ∷ fds) ((new, e), h) = rw e (move_none_lost duplicate fds h)

wanted-le : (mask : ℕ) → wanted mask ≤ 4
wanted-le mask = omega arith

-- A request that send_channel has sent is taken with all its descriptors, as many as were sent,
-- whichever of 0 to 2 are open at the sender and whatever numbers the kernel gives them, where each of
-- them can be duplicated.
pub receive_channel-send_channel :
    (channel : ℕ) (zeroth first second : Flags) (fds come : List ℕ) (mask : ℕ)
    (duplicate : Duplicate)
    → send_channel channel zeroth first second ≡ some (fds, mask)
    → length come ≡ length fds
    → All (IsDuplicated duplicate) come
    → let t = receive_channel duplicate (got 0 mask false (rights come ∷ [])) in
      (t.result ≡ some (length fds)) × (length t.descriptors ≡ length fds) × (t.closed ≡ come)
unfolding receive_channel collect collect_header taken
receive_channel-send_channel channel zeroth first second fds come mask duplicate e renumbered h =
    let (announced, small) = send_channel-wanted channel zeroth first second (fds, mask) e in
    let few : length come ≤ 4 = omega (arith, wanted-le mask, announced) in
    let s : Collected = record { kept = come; closed = []; invalid = false } in
    let start : (first_collected 0 mask false).invalid ≡ false = ground arith in
    let collected : collect (first_collected 0 mask false) (rights come ∷ []) ≡ s =
      collect_few come
        (record {
          kept = [];
          closed = [];
          invalid = (first_collected 0 mask false).invalid || false;
        })
        (omega arith)
      ∙ ap (λ (b : Bool). record { kept = come; closed = []; invalid = b || false }) start in
    let m = move duplicate false come in
    subst
      (λ (t : Taken).
        (t.result ≡ some (length fds)) × (length t.descriptors ≡ length fds) × (t.closed ≡ come))
      (sym (
        ap
          (λ (c : Collected).
            taken c.closed
              (move duplicate (c.invalid || not (length c.kept == wanted mask)) c.kept))
          collected
        ∙ ap (λ (b : Bool). taken [] (move duplicate (not b) come))
            ((==_iff (length come) (wanted mask)).1 (renumbered ∙ sym announced))
        ∙ if_false m.invalid _ _ (move_none_lost duplicate come h)))
      (
        ap some (all_moved duplicate come h ∙ renumbered),
        all_moved duplicate come h ∙ renumbered,
        (move-IsMoved duplicate come false).0,
      )
  where
    all_moved :
        (duplicate : Duplicate) (come : List ℕ)
        → All (IsDuplicated duplicate) come
        → length (move duplicate false come).descriptors ≡ length come
    all_moved duplicate come h =
        (move-IsMoved duplicate come false).1 (move_none_lost duplicate come h)
