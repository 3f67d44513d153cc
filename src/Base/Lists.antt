-- ===== src/Base/Lists.antt =====
-- Lists measured and cut by native numbers, under the library's names.
use Prim.Native.Nat.{ℕ, zero, suc, ◌+◌, ◌-◌, ◌≤◌, min}
use mathlib.Core.Path.{◌≡◌, refl, ap, ◌∙◌, sym}
use mathlib.Core.List.{List, [], ◌∷◌, ◌++◌}
use native.Mathlib.Omega.{arith}

module _ {ℓ} {A : Type ℓ} where
  abbrev pub length : List A → ℕ
  length [] = 0
  length (x ∷ xs) = suc (length xs)

  abbrev pub take : ℕ → List A → List A
  take zero xs = []
  take (suc n) [] = []
  take (suc n) (x ∷ xs) = x ∷ take n xs

  abbrev pub drop : ℕ → List A → List A
  drop zero xs = xs
  drop (suc n) [] = []
  drop (suc n) (x ∷ xs) = drop n xs

  abbrev pub get_or : List A → ℕ → A → A
  get_or [] i d = d
  get_or (x ∷ xs) zero d = x
  get_or (x ∷ xs) (suc i) d = get_or xs i d

  abbrev pub replicate : ℕ → A → List A
  replicate zero a = []
  replicate (suc n) a = a ∷ replicate n a

  abbrev pub All {κ} : (A → Type κ) → List A → Type κ
  All P [] = Unit {κ}
  All P (x ∷ xs) = P x × All P xs

  pub length-append : (xs ys : List A) → length (xs ++ ys) ≡ length xs + length ys
  length-append [] ys = omega arith
  length-append (x ∷ xs) ys = omega (arith, length-append xs ys)

  pub take-append-drop : (n : ℕ) (xs : List A) → take n xs ++ drop n xs ≡ xs
  take-append-drop zero xs = refl
  take-append-drop (suc n) [] = refl
  take-append-drop (suc n) (x ∷ xs) = ap (◌∷◌ x) (take-append-drop n xs)

  pub length-take : (n : ℕ) (xs : List A) → length (take n xs) ≡ min n (length xs)
  length-take zero xs = omega arith
  length-take (suc n) [] = omega arith
  length-take (suc n) (x ∷ xs) = omega (arith, length-take n xs)

  pub length-drop : (n : ℕ) (xs : List A) → length (drop n xs) ≡ length xs - n
  length-drop zero xs = omega arith
  length-drop (suc n) [] = omega arith
  length-drop (suc n) (x ∷ xs) = omega (arith, length-drop n xs)

  pub length-replicate : (n : ℕ) (a : A) → length (replicate n a) ≡ n
  length-replicate zero a = refl
  length-replicate (suc n) a = ap suc (length-replicate n a)

  pub take_all : (n : ℕ) (xs : List A) → length xs ≤ n → take n xs ≡ xs
  take_all zero [] h = refl
  take_all zero (x ∷ xs) h = absurd (omega arith)
  take_all (suc n) [] h = refl
  take_all (suc n) (x ∷ xs) h = ap (◌∷◌ x) (take_all n xs (omega arith))

  pub drop_all : (n : ℕ) (xs : List A) → length xs ≤ n → drop n xs ≡ []
  drop_all zero [] h = refl
  drop_all zero (x ∷ xs) h = absurd (omega arith)
  drop_all (suc n) [] h = refl
  drop_all (suc n) (x ∷ xs) h = drop_all n xs (omega arith)

  pub take-append : (xs ys : List A) → take (length xs) (xs ++ ys) ≡ xs
  take-append [] ys = refl
  take-append (x ∷ xs) ys = ap (◌∷◌ x) (take-append xs ys)

  pub drop-append : (xs ys : List A) → drop (length xs) (xs ++ ys) ≡ ys
  drop-append [] ys = refl
  drop-append (x ∷ xs) ys = drop-append xs ys

  pub take-append_le : (n : ℕ) (xs ys : List A) → n ≤ length xs → take n (xs ++ ys) ≡ take n xs
  take-append_le zero xs ys h = refl
  take-append_le (suc n) [] ys h = absurd (omega arith)
  take-append_le (suc n) (x ∷ xs) ys h = ap (◌∷◌ x) (take-append_le n xs ys (omega arith))

  pub take-append_ge :
      (n : ℕ) (xs ys : List A) → length xs ≤ n → take n (xs ++ ys) ≡ xs ++ take (n - length xs) ys
  take-append_ge n [] ys h = ap (λ (t : ℕ). take t ys) (omega arith)
  take-append_ge zero (x ∷ xs) ys h = absurd (omega arith)
  take-append_ge (suc n) (x ∷ xs) ys h =
      ap (◌∷◌ x)
        (take-append_ge n xs ys (omega arith) ∙ ap (λ (t : ℕ). xs ++ take t ys) (omega arith))

  pub drop-append_le :
      (n : ℕ) (xs ys : List A) → n ≤ length xs → drop n (xs ++ ys) ≡ drop n xs ++ ys
  drop-append_le zero xs ys h = refl
  drop-append_le (suc n) [] ys h = absurd (omega arith)
  drop-append_le (suc n) (x ∷ xs) ys h = drop-append_le n xs ys (omega arith)

  pub drop-append_ge :
      (n : ℕ) (xs ys : List A) → length xs ≤ n → drop n (xs ++ ys) ≡ drop (n - length xs) ys
  drop-append_ge n [] ys h = ap (λ (t : ℕ). drop t ys) (omega arith)
  drop-append_ge zero (x ∷ xs) ys h = absurd (omega arith)
  drop-append_ge (suc n) (x ∷ xs) ys h =
      drop-append_ge n xs ys (omega arith) ∙ ap (λ (t : ℕ). drop t ys) (omega arith)

  -- A run of `k` after the first `n` extends the prefix.
  pub take_add : (n k m : ℕ) (xs : List A) → n + k ≡ m → take n xs ++ take k (drop n xs) ≡ take m xs
  take_add zero k zero xs e = let e' : k ≡ 0 = omega arith in ap (λ (t : ℕ). take t xs) e'
  take_add zero k (suc m) xs e = let e' : k ≡ suc m = omega arith in ap (λ (t : ℕ). take t xs) e'
  take_add (suc n) k zero xs e = absurd (omega arith)
  take_add (suc n) zero (suc m) [] e = refl
  take_add (suc n) (suc k) (suc m) [] e = refl
  take_add (suc n) k (suc m) (x ∷ xs) e = ap (◌∷◌ x) (take_add n k m xs (omega arith))

  -- What stands right behind the first `n` extends the prefix.
  pub take-append_next :
      (n : ℕ) (xs ys rest : List A)
      → drop n xs ≡ ys ++ rest
      → take n xs ++ ys ≡ take (n + length ys) xs
  take-append_next n xs ys rest e =
      ap (λ (t : List A). take n xs ++ t) (sym (ap (take (length ys)) e ∙ take-append ys rest))
      ∙ take_add n (length ys) (n + length ys) xs refl

  -- memcpy(a + offset, d, length of d), inside an array `a`.
  abbrev pub write_at : List A → ℕ → List A → List A
  write_at a offset d = take offset a ++ (d ++ drop (offset + length d) a)

  pub length-write_at :
      (a : List A) (offset : ℕ) (d : List A)
      → offset + length d ≤ length a
      → length (write_at a offset d) ≡ length a
  length-write_at a offset d h = omega (
    arith,
    length-append (take offset a) (d ++ drop (offset + length d) a),
    length-append d (drop (offset + length d) a),
    length-take offset a,
    length-drop (offset + length d) a,
  )

  -- After a write the array begins with its old bytes up to the offset, then those written.
  pub take-write_at :
      (a : List A) (offset : ℕ) (d : List A) (m : ℕ)
      → offset + length d ≡ m
      → offset ≤ length a
      → take m (write_at a offset d) ≡ take offset a ++ d
  take-write_at a zero [] zero e h = refl
  take-write_at a zero [] (suc m) e h = absurd (omega arith)
  take-write_at a zero (x ∷ d) zero e h = absurd (omega arith)
  take-write_at a zero (x ∷ d) (suc m) e h = ap (◌∷◌ x) (
      ap (λ (t : ℕ). take t (d ++ drop (0 + length (x ∷ d)) a)) (omega arith)
      ∙ take-append d (drop (0 + length (x ∷ d)) a))
  take-write_at [] (suc offset) d m e h = absurd (omega arith)
  take-write_at (x ∷ a) (suc offset) d zero e h = absurd (omega arith)
  take-write_at (x ∷ a) (suc offset) d (suc m) e h =
      let e' : suc offset + length d ≡ suc (offset + length d) = omega arith in
      rw e' (ap (◌∷◌ x) (take-write_at a offset d m (omega arith) (omega arith)))
