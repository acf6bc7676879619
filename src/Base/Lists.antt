-- ===== src/Base/Lists.antt =====
-- Lists measured by native numbers, under the library's names.
use Prim.Native.Nat.{ℕ, zero, suc, ◌+◌, ◌-◌, ◌≤◌, min}
use mathlib.Core.Path.{◌≡◌, refl, sym, ap, subst, ◌∙◌}
use mathlib.Core.Bool.{Bool, true, false}
use mathlib.Core.Logic.{◌⊎◌, inl, inr}
use mathlib.Core.List.{List, [], ◌∷◌, ◌++◌}
use native.Mathlib.Omega.{arith}

module _ {ℓ} {A : Type ℓ} where
  abbrev pub length : List A → ℕ
  length [] = 0
  length (x ∷ xs) = suc (length xs)

  abbrev pub take : ℕ → List A → List A
  take zero xs = []
  take (suc n) [] = []
  take (suc n) (x ∷ xs) = x ∷ take n xs

  abbrev pub drop : ℕ → List A → List A
  drop zero xs = xs
  drop (suc n) [] = []
  drop (suc n) (x ∷ xs) = drop n xs

  abbrev pub replicate : ℕ → A → List A
  replicate zero a = []
  replicate (suc n) a = a ∷ replicate n a

  -- Every item of the list has the property.
  abbrev pub All {κ} : (A → Type κ) → List A → Type κ
  All P [] = Unit
  All P (x ∷ xs) = P x × All P xs

module _ {ℓ} {A : Type ℓ} where
  pub length-append : (xs ys : List A) → length (xs ++ ys) ≡ length xs + length ys
  length-append [] ys = omega arith
  length-append (x ∷ xs) ys = omega (arith, length-append xs ys)

  pub length-take : (n : ℕ) (xs : List A) → length (take n xs) ≡ min n (length xs)
  length-take zero xs = omega arith
  length-take (suc n) [] = omega arith
  length-take (suc n) (x ∷ xs) = omega (arith, length-take n xs)

  pub length-drop : (n : ℕ) (xs : List A) → length (drop n xs) ≡ length xs - n
  length-drop zero xs = omega arith
  length-drop (suc n) [] = omega arith
  length-drop (suc n) (x ∷ xs) = omega (arith, length-drop n xs)

  pub take-append-drop : (n : ℕ) (xs : List A) → take n xs ++ drop n xs ≡ xs
  take-append-drop zero xs = refl
  take-append-drop (suc n) [] = refl
  take-append-drop (suc n) (x ∷ xs) = ap (◌∷◌ x) (take-append-drop n xs)

  pub take_all : (n : ℕ) (xs : List A) → length xs ≤ n → take n xs ≡ xs
  take_all zero [] h = refl
  take_all zero (x ∷ xs) h = elim h [ ]
  take_all (suc n) [] h = refl
  take_all (suc n) (x ∷ xs) h = ap (◌∷◌ x) (take_all n xs (omega arith))

module _ {ℓ} {A : Type ℓ} where
  -- The items that pass a test.
  abbrev pub keep : (A → Bool) → List A → List A
  keep f [] = []
  keep f (x ∷ xs) = elim (f x) [ true ↦ x ∷ keep f xs | false ↦ keep f xs ]

  abbrev pub change : (A → A) → List A → List A
  change g [] = []
  change g (x ∷ xs) = g x ∷ change g xs

module _ {A : Type 0} where
  -- The list holds the item.
  abbrev pub In : A → List A → Type 0
  In x [] = ⊥
  In x (y ∷ ys) = (y ≡ x) ⊎ In x ys

module _ {A : Type 0} where
  pub All-In {κ} : (P : A → Type κ) (x : A) (l : List A) → All P l → In x l → P x
  All-In P x [] h i = elim i [ ]
  All-In P x (y ∷ ys) h (inl e) = subst P e h.0
  All-In P x (y ∷ ys) h (inr i) = All-In P x ys h.1 i

  pub In-All {κ} : (P : A → Type κ) (l : List A) → ((x : A) → In x l → P x) → All P l
  In-All P [] h = tt
  In-All P (y ∷ ys) h = (h y (inl refl), In-All P ys (λ x i. h x (inr i)))

  pub In-change : (g : A → A) (x : A) (l : List A) → In x l → In (g x) (change g l)
  In-change g x [] i = elim i [ ]
  In-change g x (y ∷ ys) (inl e) = inl (ap g e)
  In-change g x (y ∷ ys) (inr i) = inr (In-change g x ys i)

  pub All-change {κ} :
      (P Q : A → Type κ) (g : A → A) (l : List A)
      → ((x : A) → P x → Q (g x))
      → All P l
      → All Q (change g l)
  All-change P Q g [] k h = tt
  All-change P Q g (y ∷ ys) k h = (k y h.0, All-change P Q g ys k h.1)

  In-kept :
      (f : A → Bool) (x y : A) (ys : List A) (b : Bool)
      → f x ≡ true
      → f y ≡ b
      → (y ≡ x) ⊎ In x (keep f ys)
      → In x (elim b [ true ↦ y ∷ keep f ys | false ↦ keep f ys ])
  In-kept f x y ys true h e i = i
  In-kept f x y ys false h e (inl same) = absurd (false-ne-true (sym e ∙ (ap f same ∙ h)))
    where
      false-ne-true : false ≡ true → ⊥
      false-ne-true k = cc
  In-kept f x y ys false h e (inr i) = i

  pub In-keep : (f : A → Bool) (x : A) (l : List A) → f x ≡ true → In x l → In x (keep f l)
  In-keep f x [] h i = elim i [ ]
  In-keep f x (y ∷ ys) h (inl e) = In-kept f x y ys (f y) h refl (inl e)
  In-keep f x (y ∷ ys) h (inr i) = In-kept f x y ys (f y) h refl (inr (In-keep f x ys h i))

  kept-In :
      (f : A → Bool) (x y : A) (ys : List A) (b : Bool)
      → f y ≡ b
      → In x (elim b [ true ↦ y ∷ keep f ys | false ↦ keep f ys ])
      → ((y ≡ x) × (f x ≡ true)) ⊎ In x (keep f ys)
  kept-In f x y ys true e (inl same) = inl (same, sym (ap f same) ∙ e)
  kept-In f x y ys true e (inr i) = inr i
  kept-In f x y ys false e i = inr i

  pub keep-In : (f : A → Bool) (x : A) (l : List A) → In x (keep f l) → In x l × (f x ≡ true)
  keep-In f x [] i = elim i [ ]
  keep-In f x (y ∷ ys) i = elim (kept-In f x y ys (f y) refl i) [
    | inl (same, h) ↦ (inl same, h)
    | inr later ↦ let (j, h) = keep-In f x ys later in (inr j, h)
  ]

  pub All-keep {κ} : (P : A → Type κ) (f : A → Bool) (l : List A) → All P l → All P (keep f l)
  All-keep P f l h = In-All P (keep f l) (λ x i. All-In P x l h (keep-In f x l i).0)

  pub In-append : (x : A) (l m : List A) → In x l → In x (l ++ m)
  In-append x [] m i = elim i [ ]
  In-append x (y ∷ ys) m (inl e) = inl e
  In-append x (y ∷ ys) m (inr i) = inr (In-append x ys m i)

  pub All-append {κ} : (P : A → Type κ) (l m : List A) → All P l → All P m → All P (l ++ m)
  All-append P [] m h k = k
  All-append P (y ∷ ys) m h k = (h.0, All-append P ys m h.1 k)
