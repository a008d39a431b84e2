-- ===== src/Base/Index.antt =====
-- Reads after writes, resizes and appends.
use Prim.Native.Nat.{◌+◌, ℕ, zero, suc, ◌≤◌, ◌<◌}
use mathlib.Core.Path.{◌≡◌, refl, sym, ap, ◌∙◌}
use mathlib.Core.Logic.{◌≢◌}
use mathlib.Core.List.{List, [], ◌∷◌, ◌++◌}
use mathlib.Core.Option.{some}
use native.Mathlib.Omega.{arith}
use llmengine.Base.Lists.{take, drop, length, get_elem?, get_or, set, replicate, resize}

module _ {ℓ} {A : Type ℓ} where
  pub length-set : (xs : List A) (i : ℕ) (v : A) → length (set xs i v) ≡ length xs
  length-set [] i v = refl
  length-set (x ∷ xs) zero v = refl
  length-set (x ∷ xs) (suc i) v = ap suc (length-set xs i v)

  pub get_or-set_self :
      (xs : List A) (i : ℕ) (v d : A) → i < length xs → get_or (set xs i v) i d ≡ v
  get_or-set_self [] i v d h = absurd (omega arith)
  get_or-set_self (x ∷ xs) zero v d h = refl
  get_or-set_self (x ∷ xs) (suc i) v d h = get_or-set_self xs i v d (omega arith)

  pub get_or-set_ne :
      (xs : List A) (i j : ℕ) (v d : A) → i ≢ j → get_or (set xs i v) j d ≡ get_or xs j d
  get_or-set_ne [] i j v d h = refl
  get_or-set_ne (x ∷ xs) zero zero v d h = absurd (h refl)
  get_or-set_ne (x ∷ xs) zero (suc j) v d h = refl
  get_or-set_ne (x ∷ xs) (suc i) zero v d h = refl
  get_or-set_ne (x ∷ xs) (suc i) (suc j) v d h = get_or-set_ne xs i j v d (λ e. h (ap suc e))

  pub get_or-replicate : (n i : ℕ) (d : A) → get_or (replicate n d) i d ≡ d
  get_or-replicate zero i d = refl
  get_or-replicate (suc n) zero d = refl
  get_or-replicate (suc n) (suc i) d = get_or-replicate n i d

  -- Growing a vector by its default changes no read.
  pub get_or-resize :
      (n i : ℕ) (d : A) (xs : List A) → length xs ≤ n → get_or (resize n d xs) i d ≡ get_or xs i d
  get_or-resize zero i d [] h = refl
  get_or-resize zero i d (x ∷ xs) h = absurd (omega arith)
  get_or-resize (suc n) zero d [] h = refl
  get_or-resize (suc n) (suc i) d [] h = get_or-resize n i d [] (omega arith)
  get_or-resize (suc n) zero d (x ∷ xs) h = refl
  get_or-resize (suc n) (suc i) d (x ∷ xs) h = get_or-resize n i d xs (omega arith)

  pub get_or_beyond : (xs : List A) (i : ℕ) (d : A) → length xs ≤ i → get_or xs i d ≡ d
  get_or_beyond [] i d h = refl
  get_or_beyond (x ∷ xs) zero d h = absurd (omega arith)
  get_or_beyond (x ∷ xs) (suc i) d h = get_or_beyond xs i d (omega arith)

  pub get_or-append_left :
      (xs ys : List A) (i : ℕ) (d : A) → i < length xs → get_or (xs ++ ys) i d ≡ get_or xs i d
  get_or-append_left [] ys i d h = absurd (omega arith)
  get_or-append_left (x ∷ xs) ys zero d h = refl
  get_or-append_left (x ∷ xs) ys (suc i) d h = get_or-append_left xs ys i d (omega arith)

  pub get_elem?-eq-get_or :
      (xs : List A) (i : ℕ) (d : A) → i < length xs → get_elem? xs i ≡ some (get_or xs i d)
  get_elem?-eq-get_or [] i d h = absurd (omega arith)
  get_elem?-eq-get_or (x ∷ xs) zero d h = refl
  get_elem?-eq-get_or (x ∷ xs) (suc i) d h = get_elem?-eq-get_or xs i d (omega arith)

  pub get_elem?-lt : (xs : List A) (i : ℕ) (v : A) → get_elem? xs i ≡ some v → i < length xs
  get_elem?-lt [] i v h = absurd (cc)
  get_elem?-lt (x ∷ xs) zero v h = omega arith
  get_elem?-lt (x ∷ xs) (suc i) v h = omega (arith, get_elem?-lt xs i v h)

  pub get_or-take : (n i : ℕ) (xs : List A) (d : A) → i < n → get_or (take n xs) i d ≡ get_or xs i d
  get_or-take zero i xs d h = absurd (omega arith)
  get_or-take (suc n) i [] d h = refl
  get_or-take (suc n) zero (x ∷ xs) d h = refl
  get_or-take (suc n) (suc i) (x ∷ xs) d h = get_or-take n i xs d (omega arith)

  pub get_or-drop : (n i : ℕ) (xs : List A) (d : A) → get_or (drop n xs) i d ≡ get_or xs (n + i) d
  get_or-drop zero i xs d = rw (zero_add i) refl
    where
      zero_add : (i : ℕ) → 0 + i ≡ i
      zero_add i = omega arith
  get_or-drop (suc n) i [] d = refl
  get_or-drop (suc n) i (x ∷ xs) d = rw (suc_add n i) (get_or-drop n i xs d)
    where
      suc_add : (n i : ℕ) → suc n + i ≡ suc (n + i)
      suc_add n i = omega arith

  pub get_or-replicate_lt : (n i : ℕ) (x d : A) → i < n → get_or (replicate n x) i d ≡ x
  get_or-replicate_lt zero i x d h = absurd (omega arith)
  get_or-replicate_lt (suc n) zero x d h = refl
  get_or-replicate_lt (suc n) (suc i) x d h = get_or-replicate_lt n i x d (omega arith)

  pub get_or-append_last : (xs : List A) (x d : A) → get_or (xs ++ x ∷ []) (length xs) d ≡ x
  get_or-append_last [] x d = refl
  get_or-append_last (y ∷ ys) x d = get_or-append_last ys x d

  pub drop-drop : (m n : ℕ) (xs : List A) → drop n (drop m xs) ≡ drop (m + n) xs
  drop-drop zero n xs = ap (λ k. drop k xs) (zero_add n)
    where
      zero_add : (n : ℕ) → n ≡ 0 + n
      zero_add n = omega arith
  drop-drop (suc m) n [] = nothing n (suc m + n)
    where
      nothing : (i j : ℕ) → drop {A = A} i [] ≡ drop j []
      nothing zero zero = refl
      nothing zero (suc j) = refl
      nothing (suc i) zero = refl
      nothing (suc i) (suc j) = refl
  drop-drop (suc m) n (x ∷ xs) = drop-drop m n xs ∙ ap (λ k. drop k (x ∷ xs)) (suc_add m n)
    where
      suc_add : (m n : ℕ) → suc (m + n) ≡ suc m + n
      suc_add m n = omega arith

  pub drop-length : (xs : List A) → drop (length xs) xs ≡ []
  drop-length [] = refl
  drop-length (x ∷ xs) = drop-length xs

  pub drop_beyond : (xs : List A) (n : ℕ) → length xs ≤ n → drop n xs ≡ []
  drop_beyond [] zero h = refl
  drop_beyond [] (suc n) h = refl
  drop_beyond (x ∷ xs) zero h = absurd (omega arith)
  drop_beyond (x ∷ xs) (suc n) h = drop_beyond xs n (omega arith)

  pub get_or-drop_head :
      (xs rest : List A) (i : ℕ) (x d : A) → drop i xs ≡ x ∷ rest → get_or xs i d ≡ x
  get_or-drop_head [] rest zero x d e = absurd (cc)
  get_or-drop_head [] rest (suc i) x d e = absurd (cc)
  get_or-drop_head (y ∷ xs) rest zero x d e = cc
  get_or-drop_head (y ∷ xs) rest (suc i) x d e = get_or-drop_head xs rest i x d e

  -- One entry more is dropped.
  pub drop_next : (xs rest : List A) (i : ℕ) (x : A) → drop i xs ≡ x ∷ rest → drop (i + 1) xs ≡ rest
  drop_next xs rest i x e = sym (drop-drop i 1 xs) ∙ ap (drop 1) e
