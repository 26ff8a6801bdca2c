-- ===== src/Prelude/Lists.antt =====
-- C arrays and sequences as lists with native indices, under the library's names.
use Prim.Native.Nat.{ℕ, zero, suc, ◌+◌, ◌<◌}
use mathlib.Core.Path.{◌≡◌, refl, ap, ap₂, ◌∙◌}
use mathlib.Core.Logic.{◌≢◌}
use mathlib.Core.List.{List, [], ◌∷◌, ◌++◌}
use native.Mathlib.Omega.{arith}

module _ {ℓ} {A : Type ℓ} where
  abbrev pub length : List A → ℕ
  length [] = 0
  length (x ∷ xs) = suc (length xs)

  abbrev pub get_or : List A → ℕ → A → A
  get_or [] i d = d
  get_or (x ∷ xs) zero d = x
  get_or (x ∷ xs) (suc i) d = get_or xs i d

  -- A write out of range changes nothing.
  abbrev pub set : List A → ℕ → A → List A
  set [] i v = []
  set (x ∷ xs) zero v = v ∷ xs
  set (x ∷ xs) (suc i) v = x ∷ set xs i v

  abbrev pub take : ℕ → List A → List A
  take zero xs = []
  take (suc n) [] = []
  take (suc n) (x ∷ xs) = x ∷ take n xs

  abbrev pub drop : ℕ → List A → List A
  drop zero xs = xs
  drop (suc n) [] = []
  drop (suc n) (x ∷ xs) = drop n xs

  abbrev pub replicate : ℕ → A → List A
  replicate zero a = []
  replicate (suc n) a = a ∷ replicate n a

  pub length-append : (xs ys : List A) → length (xs ++ ys) ≡ length xs + length ys
  length-append [] ys = omega arith
  length-append (x ∷ xs) ys = omega (arith, length-append xs ys)

  pub length-set : (xs : List A) (i : ℕ) (v : A) → length (set xs i v) ≡ length xs
  length-set [] i v = refl
  length-set (x ∷ xs) zero v = refl
  length-set (x ∷ xs) (suc i) v = ap suc (length-set xs i v)

  pub get_or-set_self :
      (xs : List A) (i : ℕ) (v d : A) → i < length xs → get_or (set xs i v) i d ≡ v
  get_or-set_self [] i v d h = absurd (omega arith)
  get_or-set_self (x ∷ xs) zero v d h = refl
  get_or-set_self (x ∷ xs) (suc i) v d h = get_or-set_self xs i v d (omega arith)

  pub get_or-set_ne :
      (xs : List A) (i j : ℕ) (v d : A) → i ≢ j → get_or (set xs i v) j d ≡ get_or xs j d
  get_or-set_ne [] i j v d h = refl
  get_or-set_ne (x ∷ xs) zero zero v d h = absurd (h refl)
  get_or-set_ne (x ∷ xs) zero (suc j) v d h = refl
  get_or-set_ne (x ∷ xs) (suc i) zero v d h = refl
  get_or-set_ne (x ∷ xs) (suc i) (suc j) v d h = get_or-set_ne xs i j v d (λ e. h (ap suc e))

  -- To write the value that is there changes nothing.
  pub set-get_or : (xs : List A) (i : ℕ) (d : A) → set xs i (get_or xs i d) ≡ xs
  set-get_or [] i d = refl
  set-get_or (x ∷ xs) zero d = refl
  set-get_or (x ∷ xs) (suc i) d = ap (◌∷◌ x) (set-get_or xs i d)

pub length-replicate {ℓ} : {A : Type ℓ} (n : ℕ) (a : A) → length (replicate n a) ≡ n
length-replicate zero a = refl
length-replicate (suc n) a = ap suc (length-replicate n a)

-- The values of `g` at `n` places from `start` on.
unfoldable pub values {ℓ} : {A : Type ℓ} → (ℕ → A) → ℕ → ℕ → List A
values g start zero = []
values g start (suc n) = g start ∷ values g (start + 1) n

pub length-values {ℓ} : {A : Type ℓ} (g : ℕ → A) (start n : ℕ) → length (values g start n) ≡ n
unfolding values
length-values g start zero = refl
length-values g start (suc n) = ap suc (length-values g (start + 1) n)

-- A list is the values of its elements.
pub values-get_or {ℓ} :
    {A : Type ℓ} (g : ℕ → A) (start : ℕ) (xs : List A) (d : A)
    → ((i : ℕ) → i < length xs → g (start + i) ≡ get_or xs i d)
    → values g start (length xs) ≡ xs
unfolding values
values-get_or g start [] d h = refl
values-get_or g start (x ∷ xs) d h =
    ap₂ ◌∷◌ (ap g (omega arith) ∙ h 0 (omega arith))
      (values-get_or g (start + 1) xs d (λ i lt. ap g (omega arith) ∙ h (suc i) (omega arith)))

pub drop-append {ℓ} : {A : Type ℓ} (xs ys : List A) → drop (length xs) (xs ++ ys) ≡ ys
drop-append [] ys = refl
drop-append (x ∷ xs) ys = drop-append xs ys

pub drop-length {ℓ} : {A : Type ℓ} (xs : List A) → drop (length xs) xs ≡ []
drop-length [] = refl
drop-length (x ∷ xs) = drop-length xs

pub take-length {ℓ} : {A : Type ℓ} (xs : List A) → take (length xs) xs ≡ xs
take-length [] = refl
take-length (x ∷ xs) = ap (◌∷◌ x) (take-length xs)

pub values_congr {ℓ} :
    {A : Type ℓ} (g h : ℕ → A) (start first n : ℕ)
    → ((i : ℕ) → i < n → g (start + i) ≡ h (first + i))
    → values g start n ≡ values h first n
unfolding values
values_congr g h start first zero e = refl
values_congr g h start first (suc n) e =
    ap₂ ◌∷◌ (ap g (omega arith) ∙ e 0 (omega arith) ∙ ap h (omega arith)) (
      values_congr g h (start + 1) (first + 1) n
        (λ i lt. ap g (omega arith) ∙ e (suc i) (omega arith) ∙ ap h (omega arith)))

pub values_snoc {ℓ} :
    {A : Type ℓ} (g : ℕ → A) (start n : ℕ)
    → values g start (suc n) ≡ values g start n ++ (g (start + n) ∷ [])
unfolding values
values_snoc g start zero = ap (λ k. g k ∷ []) (omega arith)
values_snoc g start (suc n) =
    ap (◌∷◌ (g start))
      (values_snoc g (start + 1) n ∙ ap (λ k. values g (start + 1) n ++ (g k ∷ [])) (omega arith))

pub get_or-values {ℓ} :
    {A : Type ℓ} (g : ℕ → A) (start n i : ℕ) (d : A)
    → i < n
    → get_or (values g start n) i d ≡ g (start + i)
unfolding values
get_or-values g start zero i d lt = absurd (omega arith)
get_or-values g start (suc n) zero d lt = ap g (omega arith)
get_or-values g start (suc n) (suc i) d lt =
    get_or-values g (start + 1) n i d (omega arith) ∙ ap g (omega arith)
