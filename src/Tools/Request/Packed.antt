-- ===== src/Tools/Request/Packed.antt =====
-- The payload of open_request in app/tool_broker.c is the arguments, each ended by its NUL.
use whitenoise_linux.Base.Results.{Result, ok, err, e2big}
use whitenoise_linux.Base.{
  ℕ, suc, ◌+◌, ◌-◌, ◌≤◌, ◌<◌, List, [], ◌∷◌, ◌++◌, Bytes, Option, some, ltb, leb, ◌==◌, ◌||◌,
  if◌then◌else◌, length, take, All, ◌≡◌, refl, sym, ap, ◌∙◌, arith, ◌⊎◌, inl, inr, Bool-cases,
  append_assoc, append-nil, length-append, if_true, if_false, take_all,
}
use whitenoise_linux.Broker.Strings.{strnlen, IsText, terminated, strnlen-text, strnlen-long}
use whitenoise_linux.Tools.Environment.{arg_limit}
use whitenoise_linux.Tools.Request.{pack}

-- The arguments as pointers, none of them NULL.
abbrev pub given : List Bytes → List (Option Bytes)
given [] = []
given (s ∷ ss) = some s ∷ given ss

pub length-given : (ss : List Bytes) → length (given ss) ≡ length ss
length-given [] = refl
length-given (s ∷ ss) = ap suc (length-given ss)

strnlen-argument :
    (s : Bytes) (limit : ℕ)
    → IsText s
    → (length s < limit → strnlen (s ++ 0 ∷ []) limit ≡ length s)
      × (limit ≤ length s → strnlen (s ++ 0 ∷ []) limit ≡ limit)
strnlen-argument s limit t =
    (λ h. strnlen-text s [] limit t h, λ h. strnlen-long s (0 ∷ []) limit t h)

-- What the block is after the whole loop, or that it does not fit.
abbrev pub fitting : Bytes → Result Bytes
fitting block = if leb (length block) arg_limit then ok block else err e2big

pack_step :
    (payload s : Bytes) (ss : List Bytes)
    → IsText s
    → length payload ≤ arg_limit
    → ((length (payload ++ (s ++ 0 ∷ [])) ≤ arg_limit)
        × (pack payload (given (s ∷ ss)) ≡ pack (payload ++ (s ++ 0 ∷ [])) (given ss)))
      ⊎ ((arg_limit < length payload + length s + 1) × (pack payload (given (s ∷ ss)) ≡ err e2big))
unfolding pack
pack_step payload s ss t h = elim (Bool-cases (leb (length payload + length s + 1) arg_limit)) [
  | inl room ↦
      let n : strnlen (s ++ 0 ∷ []) arg_limit ≡ length s =
        (strnlen-argument s arg_limit t).0 (ground (arith, room)) in
      let whole : take (length s + 1) (s ++ 0 ∷ []) ≡ s ++ 0 ∷ [] =
        take_all _ _ (omega (arith, length-append s (0 ∷ []))) in
      inl (
        ground (arith, room, length-append payload (s ++ 0 ∷ []), length-append s (0 ∷ [])),
        rw (n, whole)
            (if_false (length s == arg_limit || ltb (arg_limit - length payload) (length s + 1)) _ _
              (ground (arith, room))),
      )
  | inr over ↦ inr (
    ground (arith, over),
    elim (Bool-cases (leb arg_limit (length s))) [
      | inl long ↦ rw ((strnlen-argument s arg_limit t).1 (ground (arith, long))) (
          if_true (arg_limit == arg_limit || ltb (arg_limit - length payload) (arg_limit + 1))
            (err e2big) (later arg_limit) refl)
      | inr short ↦ rw ((strnlen-argument s arg_limit t).0 (ground (arith, short))) (
          if_true (length s == arg_limit || ltb (arg_limit - length payload) (length s + 1))
            (err e2big) (later (length s)) (ground (arith, over, short)))
    ],
  )
]
  where
    later : ℕ → Result Bytes
    later n = pack (payload ++ take (n + 1) (s ++ 0 ∷ [])) (given ss)

-- The loop puts the arguments behind the block, or fails with E2BIG where they do not fit.
pub pack-terminated :
    (payload : Bytes) (ss : List Bytes)
    → All IsText ss
    → length payload ≤ arg_limit
    → pack payload (given ss) ≡ fitting (payload ++ terminated ss)
unfolding terminated
pack-terminated payload [] t h =
    unfold pack in
    rw (append-nil payload) (sym (if_true (leb (length payload) arg_limit) _ _ (ground arith)))
pack-terminated payload (s ∷ ss) (t, ts) h = elim (pack_step payload s ss t h) [
  | inl (room, next) ↦
      next
      ∙ pack-terminated (payload ++ (s ++ 0 ∷ [])) ss ts room
      ∙ ap fitting (
          append_assoc payload (s ++ 0 ∷ []) (terminated ss)
          ∙ ap (λ (u : Bytes). payload ++ u) (append_assoc s (0 ∷ []) (terminated ss)))
  | inr (over, refused) ↦
      refused
      ∙ sym (
          if_false (leb (length (payload ++ (s ++ 0 ∷ terminated ss))) arg_limit) _ _ (
            ground (
              arith,
              over,
              length-append payload (s ++ 0 ∷ terminated ss),
              length-append s (0 ∷ terminated ss),
            )))
]
