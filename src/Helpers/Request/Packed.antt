-- ===== src/Helpers/Request/Packed.antt =====
-- The block of wn_helper_execve is the path and the arguments, each ended by its NUL
-- (app/helper_broker.c).
use whitenoise_linux.Base.Results.{ok, err, ok-injective, >>=-eq-ok, guard-eq-ok, e2big}
use whitenoise_linux.Base.{
  ℕ, ◌+◌, ◌-◌, ◌≤◌, ◌<◌, List, [], ◌∷◌, ◌++◌, Bytes, false, not, ltb, leb, ◌==◌, ◌||◌, length, take,
  All, ◌≡◌, refl, sym, ap, ◌∙◌, arith, inl, inr, Bool-cases, append_assoc, append-nil,
  length-append, if_true, if_false, take_all, subst,
}
use whitenoise_linux.Broker.Strings.{strnlen, IsText, terminated, strnlen-text, strnlen-long}
use whitenoise_linux.Helpers.Freeze.{arg_bytes}
use whitenoise_linux.Helpers.Request.{Request, pack, exec_request, arg_count}

-- Where the string ends within the range, it is copied whole.
copied :
    (s : Bytes) (available : ℕ)
    → IsText s
    → (strnlen (s ++ 0 ∷ []) available == available) ≡ false
    → (take (strnlen (s ++ 0 ∷ []) available + 1) (s ++ 0 ∷ []) ≡ s ++ 0 ∷ [])
      × (length s < available)
copied s available t e = elim (Bool-cases (ltb (length s) available)) [
  | inr long ↦
      absurd (ground (arith, e, strnlen-long s (0 ∷ []) available t (ground (arith, long))))
  | inl short ↦
      let found = strnlen-text s [] available t (ground (arith, short)) in
      (
        rw found (take_all (length s + 1) (s ++ 0 ∷ []) (omega (arith, length-append s (0 ∷ [])))),
        ground (arith, short),
      )
]

-- What the loop has made of a block and a count, if it has not met its limit.
abbrev IsPacked : Bytes → ℕ → List Bytes → Bytes × ℕ → Type 0
IsPacked block count ss (block', count') =
    (block' ≡ block ++ terminated ss) × (count' ≡ count + length ss) × (length block' ≤ arg_bytes)

pack-IsPacked :
    (ss : List Bytes) (block : Bytes) (count : ℕ) (block' : Bytes) (count' : ℕ)
    → All IsText ss
    → length block ≤ arg_bytes
    → count' < arg_count
    → pack block count ss ≡ ok (block', count')
    → IsPacked block count ss (block', count')
unfolding pack terminated
pack-IsPacked [] block count block' count' t room few e =
    subst (IsPacked block count []) (ok-injective _ _ e) (sym (append-nil block), omega arith, room)
pack-IsPacked (s ∷ ss) block count block' count' (t, ts) room few e =
    elim (Bool-cases (leb arg_count count)) [
      | inl full ↦
          let same =
            ok-injective _ _ (sym (if_true (leb arg_count count) (ok (block, count)) _ full) ∙ e) in
          absurd (ground (arith, full, ap (λ (x : Bytes × ℕ). x.1) same))
      | inr next ↦
          let available = arg_bytes - length block in
          let e₁ = sym (if_false (leb arg_count count) (ok (block, count)) _ next) ∙ e in
          elim (Bool-cases (strnlen (s ++ 0 ∷ []) available == available)) [
            | inl over ↦ cc (
                sym (if_true (strnlen (s ++ 0 ∷ []) available == available) (err e2big) _ over)
                ∙ e₁)
            | inr fit ↦
                let e₂ =
                  sym (if_false (strnlen (s ++ 0 ∷ []) available == available) (err e2big) _ fit)
                  ∙ e₁ in
                let (whole, short) = copied s available t fit in
                let e₃ = ap (λ (d : Bytes). pack (block ++ d) (count + 1) ss) (sym whole) ∙ e₂ in
                let (made, counted, small) =
                  pack-IsPacked ss (block ++ (s ++ 0 ∷ [])) (count + 1) block' count' ts
                    (omega
                      (arith, short, length-append block (s ++ 0 ∷ []), length-append s (0 ∷ [])))
                    few e₃ in
                (
                  made
                      ∙ append_assoc block (s ++ 0 ∷ []) (terminated ss)
                      ∙ ap (λ (d : Bytes). block ++ d) (append_assoc s (0 ∷ []) (terminated ss)),
                  omega (arith, counted),
                  small,
                )
          ]
    ]

-- A request that wn_helper_execve sends.
pub record IsExec (path : Bytes) (arguments : List Bytes) (q : Request × Bytes) : Type 0 where
  pub named : 0 < length path
  pub block : q.1 ≡ terminated (path ∷ arguments)
  pub counted : q.0.count ≡ length arguments
  pub few : length arguments < arg_count
  pub sized : q.0.bytes ≡ length q.1
  pub small : length q.1 ≤ arg_bytes

pub exec_request-IsExec :
    (path : Bytes) (arguments : List Bytes) (q : Request × Bytes)
    → IsText path
    → All IsText arguments
    → exec_request path arguments ≡ ok q
    → IsExec path arguments q
unfolding exec_request terminated
exec_request-IsExec path arguments q t ts e =
    let l = strnlen (path ++ 0 ∷ []) arg_bytes in
    let (fine, e₁) = guard-eq-ok (not (l == 0 || l == arg_bytes)) e2big _ e in
    let ((block, count), packed, e₂) =
      >>=-eq-ok (pack (take (l + 1) (path ++ 0 ∷ [])) 0 arguments) _ e₁ in
    let (few, e₃) = guard-eq-ok (not (leb arg_count count)) e2big _ e₂ in
    let (whole, short) = copied path arg_bytes t (ground (arith, fine)) in
    let found = strnlen-text path [] arg_bytes t short in
    let (made, counted, small) =
      pack-IsPacked arguments (path ++ 0 ∷ []) 0 block count ts
        (omega (arith, short, length-append path (0 ∷ []))) (ground (arith, few))
        (ap (λ (d : Bytes). pack d 0 arguments) (sym whole) ∙ packed) in
    subst (IsExec path arguments) (ok-injective _ q e₃) (record {
      named = ground (arith, fine, found);
      block = made ∙ append_assoc path (0 ∷ []) (terminated arguments);
      counted = omega (arith, counted);
      few = ground (arith, few, counted);
      sized = refl;
      small = small;
    })
