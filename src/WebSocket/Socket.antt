-- ===== src/WebSocket/Socket.antt =====
-- recv_all and send_all of app/ws_shim.c over the answers of libcurl.
use whitenoise_linux.Base.{
  ℕ, ◌-◌, ◌≤◌, ◌<◌, List, [], ◌∷◌, ◌++◌, Bytes, Bool, true, false, Option, none, some, leb, ◌==◌,
  if◌then◌else◌, length, take, drop, ◌≡◌, refl, sym, ap, length-append, take-append-drop,
  take-append, drop-append, subst, take-append_ge, take-append_le, drop-append_ge, drop-append_le,
  ◌∙◌, arith, inl, inr, Bool-cases,
}

-- What one curl_easy_recv gives: bytes that have come (it takes as many as it has room for, and
-- none at the end of the stream), CURLE_AGAIN, behind which wait_sock finds the socket ready or
-- passes the deadline, or an error. When the list ends the socket is silent until the deadline.
pub data Event : Type 0 where
  chunk : Bytes → Event
  again : Bool → Event
  failed : Event

-- What a read leaves of a chunk.
push_back : Bytes → List Event → List Event
push_back [] es = es
push_back (c ∷ d) es = chunk (c ∷ d) ∷ es

-- Bytes put before those that the rest of a loop reads.
abbrev before : Bytes → Option (Bytes × List Event) → Option (Bytes × List Event)
before d none = none
before d (some (rest, es)) = some (d ++ rest, es)

-- recv_all: the `n` bytes read and the answers that are left, or `none` for -1.
unfoldable pub recv_all : List Event → ℕ → Option (Bytes × List Event)
unfolding push_back
recv_all [] n = if n == 0 then some ([], []) else none
recv_all (chunk d ∷ es) n =
    if n == 0
    then some ([], chunk d ∷ es)
    else if length d == 0
    then none
    else if leb n (length d)
    then some (take n d, push_back (drop n d) es)
    else before d (recv_all es (n - length d))
recv_all (again on_time ∷ es) n =
    if n == 0 then some ([], again on_time ∷ es) else if on_time then recv_all es n else none
recv_all (failed ∷ es) n = if n == 0 then some ([], failed ∷ es) else none

-- The bytes that can still be read.
unfoldable pub stream : List Event → Bytes
stream [] = []
stream (chunk d ∷ es) = if length d == 0 then [] else d ++ stream es
stream (again on_time ∷ es) = if on_time then stream es else []
stream (failed ∷ es) = []

-- A read of `n` bytes gives exactly the next `n`, or there are not that many.
abbrev pub Reads : List Event → ℕ → Option (Bytes × List Event) → Type 0
Reads es n none = length (stream es) < n
Reads es n (some (d, es')) =
    (n ≤ length (stream es)) × (d ≡ take n (stream es)) × (stream es' ≡ drop n (stream es))

Reads-if :
    (es : List Event) (n : ℕ) (b : Bool) (x y : Option (Bytes × List Event))
    → (b ≡ true → Reads es n x)
    → (b ≡ false → Reads es n y)
    → Reads es n (if b then x else y)
Reads-if es n true x y h k = h refl
Reads-if es n false x y h k = k refl

stream-push_back : (d : Bytes) (es : List Event) → stream (push_back d es) ≡ d ++ stream es
unfolding push_back stream
stream-push_back [] es = refl
stream-push_back (c ∷ d) es = elim (Bool-cases (length (c ∷ d) == 0)) [
  | inl e ↦ absurd (ground arith)
  | inr e ↦ rw e refl
]

Reads-none : (es : List Event) (n : ℕ) → n ≡ 0 → Reads es n (some ([], es))
Reads-none es n e = (omega arith, rw e refl, rw e refl)

Reads-before :
    (d : Bytes) (es from : List Event) (n : ℕ) (x : Option (Bytes × List Event))
    → stream from ≡ d ++ stream es
    → length d < n
    → Reads es (n - length d) x
    → Reads from n (before d x)
Reads-before d es from n none e h r = rw e (omega (arith, length-append d (stream es)))
Reads-before d es from n (some (b, left)) e h (enough, read, rest) = rw e (
  omega (arith, length-append d (stream es)),
  ap (λ (t : Bytes). d ++ t) read ∙ sym (take-append_ge n d (stream es) (omega arith)),
  rest ∙ sym (drop-append_ge n d (stream es) (omega arith)),
)

stream-chunk :
    (d : Bytes) (es : List Event) → (length d == 0) ≡ false → stream (chunk d ∷ es) ≡ d ++ stream es
unfolding stream
stream-chunk d es e = rw e refl

Reads-chunk :
    (d : Bytes) (es from : List Event) (n : ℕ)
    → stream from ≡ d ++ stream es
    → n ≤ length d
    → Reads from n (some (take n d, push_back (drop n d) es))
Reads-chunk d es from n e h = rw e (
  omega (arith, length-append d (stream es)),
  sym (take-append_le n d (stream es) h),
  stream-push_back (drop n d) es ∙ sym (drop-append_le n d (stream es) h),
)

-- recv_all reads exactly the next `n` bytes, however they are cut into pieces, and fails only when
-- there are not that many before the stream ends or the deadline passes.
pub recv_all-Reads : (es : List Event) (n : ℕ) → Reads es n (recv_all es n)
unfolding recv_all stream
recv_all-Reads [] n =
    Reads-if [] n (n == 0) _ none (λ e. Reads-none [] n (ground arith)) (λ e. ground (arith, e))
recv_all-Reads (chunk d ∷ es) n =
    Reads-if (chunk d ∷ es) n (n == 0) _ _ (λ e. Reads-none (chunk d ∷ es) n (ground arith))
      (λ more.
        Reads-if (chunk d ∷ es) n (length d == 0) none _ (λ e. empty_chunk e more)
          (λ e.
            Reads-if (chunk d ∷ es) n (leb n (length d)) _ _
              (λ h. Reads-chunk d es (chunk d ∷ es) n (stream-chunk d es e) (ground arith))
              (λ h.
                Reads-before d es (chunk d ∷ es) n _ (stream-chunk d es e) (ground arith)
                  (recv_all-Reads es (n - length d)))))
  where
    empty_chunk : (length d == 0) ≡ true → (n == 0) ≡ false → length (stream (chunk d ∷ es)) < n
    empty_chunk e more = ground (arith, stream)
recv_all-Reads (again true ∷ es) n =
    Reads-if (again true ∷ es) n (n == 0) _ _ (λ e. Reads-none (again true ∷ es) n (ground arith))
      (λ e. same (recv_all es n) (recv_all-Reads es n))
  where
    same : (x : Option (Bytes × List Event)) → Reads es n x → Reads (again true ∷ es) n x
    same none r = r
    same (some (d, left)) r = r
recv_all-Reads (again false ∷ es) n =
    Reads-if (again false ∷ es) n (n == 0) _ none
      (λ e. Reads-none (again false ∷ es) n (ground arith)) (λ e. ground arith)
recv_all-Reads (failed ∷ es) n =
    Reads-if (failed ∷ es) n (n == 0) _ none (λ e. Reads-none (failed ∷ es) n (ground arith))
      (λ e. ground arith)

-- What one curl_easy_send gives: a number of bytes taken, CURLE_AGAIN as above, or an error.
pub data Sent : Type 0 where
  taken : ℕ → Sent
  wait : Bool → Sent
  refused : Sent

-- send_all: what the socket has taken, whether that is all, and the answers that are left.
unfoldable pub send_all : List Sent → Bytes → Bytes × Bool × List Sent
send_all [] d = ([], length d == 0, [])
send_all (taken n ∷ ss) d =
    if length d == 0
    then ([], true, taken n ∷ ss)
    else let rest = send_all ss (drop n d) in (take n d ++ rest.0, rest.1, rest.2)
send_all (wait on_time ∷ ss) d =
    if length d == 0
    then ([], true, wait on_time ∷ ss)
    else let rest = send_all ss d in if on_time then rest else ([], false, ss)
send_all (refused ∷ ss) d = if length d == 0 then ([], true, refused ∷ ss) else ([], false, ss)

length-none : (d : Bytes) → (length d == 0) ≡ true → d ≡ []
length-none [] e = refl
length-none (c ∷ d) e = absurd (ground arith)

-- When send_all succeeds, the socket has taken all of the bytes, in order.
pub send_all-sends : (ss : List Sent) (d : Bytes) → (send_all ss d).1 ≡ true → (send_all ss d).0 ≡ d
unfolding send_all
send_all-sends [] d e = sym (length-none d e)
send_all-sends (taken n ∷ ss) d e = elim (Bool-cases (length d == 0)) [
  | inl h ↦ rw h (sym (length-none d h))
  | inr h ↦ rw h (
      ap (λ (t : Bytes). take n d ++ t) (send_all-sends ss (drop n d) (rw h at e))
      ∙ take-append-drop n d)
]
send_all-sends (wait true ∷ ss) d e = elim (Bool-cases (length d == 0)) [
  | inl h ↦ rw h (sym (length-none d h))
  | inr h ↦ rw h (send_all-sends ss d (rw h at e))
]
send_all-sends (wait false ∷ ss) d e = elim (Bool-cases (length d == 0)) [
  | inl h ↦ rw h (sym (length-none d h))
  | inr h ↦ cc (rw h at e)
]
send_all-sends (refused ∷ ss) d e = elim (Bool-cases (length d == 0)) [
  | inl h ↦ rw h (sym (length-none d h))
  | inr h ↦ cc (rw h at e)
]

-- What a read that succeeded has read.
pub recv_all-some :
    (es left : List Event) (n : ℕ) (d : Bytes)
    → recv_all es n ≡ some (d, left)
    → (n ≤ length (stream es)) × (d ≡ take n (stream es)) × (stream left ≡ drop n (stream es))
recv_all-some es left n d e = subst (Reads es n) e (recv_all-Reads es n)

-- Bytes that are there are read.
pub recv_all_exact :
    (es : List Event) (d rest : Bytes) (n : ℕ)
    → length d ≡ n
    → stream es ≡ d ++ rest
    → (left : List Event) × (recv_all es n ≡ some (d, left)) × (stream left ≡ rest)
recv_all_exact es d rest n size e = exact (recv_all es n) refl (recv_all-Reads es n)
  where
    exact :
        (x : Option (Bytes × List Event))
        → recv_all es n ≡ x
        → Reads es n x
        → (left : List Event) × (recv_all es n ≡ some (d, left)) × (stream left ≡ rest)
    exact none same r = absurd (omega (arith, ap length e, length-append d rest))
    exact (some (b, left)) same (enough, read, remaining) =
        let b_is : b ≡ d =
          read
          ∙ ap (take n) e
          ∙ ap (λ (t : ℕ). take t (d ++ rest)) (sym size)
          ∙ take-append d rest in
        (
          left,
          same ∙ ap (λ (t : Bytes). some (t, left)) b_is,
          remaining
              ∙ ap (drop n) e
              ∙ ap (λ (t : ℕ). drop t (d ++ rest)) (sym size)
              ∙ drop-append d rest,
        )
