-- ===== src/Session/Number/Dotted.antt =====
-- The decimal texts of `FormatInt` in the paths of files.
use tftpcpd.Base.{
  ℕ, zero, suc, ◌+◌, ◌*◌, ◌/◌, ◌%◌, ◌<◌, Bytes, Bool, true, false, [], ◌∷◌, ◌++◌, ◌≡◌, refl, sym,
  ap, ◌∙◌, arith, ltb, if◌then◌else◌, lacks, ltb→le,
}
use tftpcpd.Session.Number.{pos, is_digit, digits_value, decimal, format_int}

is_digit-digit : (n : ℕ) → is_digit (b'0' + n % 10) ≡ true
unfolding is_digit
is_digit-digit n = ground arith

digits_value-digit :
    (acc n : ℕ) (rest : Bytes)
    → digits_value acc ((b'0' + n % 10) ∷ rest) ≡ digits_value (acc * 10 + n % 10) rest
unfolding digits_value
digits_value-digit acc n rest =
    rw (is_digit-digit n) (ap (λ k. digits_value (acc * 10 + k) rest) (omega arith))

digits_value-branch :
    (b : Bool) (n : ℕ) (rest more : Bytes)
    → ltb n 10 ≡ b
    → (b ≡ false → digits_value 0 more ≡ digits_value (n / 10) ((b'0' + n % 10) ∷ rest))
    → digits_value 0 (if b then (b'0' + n % 10) ∷ rest else more) ≡ digits_value n rest
digits_value-branch true n rest more h k =
    digits_value-digit 0 n rest ∙ ap (λ m. digits_value m rest) (ground arith)
digits_value-branch false n rest more h k =
    k refl ∙ (digits_value-digit (n / 10) n rest ∙ ap (λ m. digits_value m rest) (omega arith))

-- What is read after the digits of `n` is read with `n` before it.
digits_value-decimal :
    (fuel n : ℕ) (rest : Bytes)
    → n < fuel
    → digits_value 0 (decimal fuel n rest) ≡ digits_value n rest
unfolding decimal
digits_value-decimal zero n rest h = absurd (omega (arith, h))
digits_value-decimal (suc fuel) n rest h =
    let ih = digits_value-decimal fuel (n / 10) ((b'0' + n % 10) ∷ rest) in
    digits_value-branch (ltb n 10) n rest (decimal fuel (n / 10) ((b'0' + n % 10) ∷ rest)) refl
      (λ large. ih (omega (arith, h, ltb→le n 10 large)))

lacks-branch :
    (b : Bool) (n : ℕ) (rest more : Bytes)
    → ltb n 10 ≡ b
    → (b ≡ false → lacks b'.' more ≡ lacks b'.' ((b'0' + n % 10) ∷ rest))
    → lacks b'.' (if b then (b'0' + n % 10) ∷ rest else more) ≡ lacks b'.' rest
unfolding lacks
lacks-branch true n rest more h k = ground arith
lacks-branch false n rest more h k = k refl ∙ (ground arith)

lacks-decimal :
    (fuel n : ℕ) (rest : Bytes) → n < fuel → lacks b'.' (decimal fuel n rest) ≡ lacks b'.' rest
unfolding decimal
lacks-decimal zero n rest h = absurd (omega (arith, h))
lacks-decimal (suc fuel) n rest h =
    let ih = lacks-decimal fuel (n / 10) ((b'0' + n % 10) ∷ rest) in
    lacks-branch (ltb n 10) n rest (decimal fuel (n / 10) ((b'0' + n % 10) ∷ rest)) refl
      (λ large. ih (omega (arith, h, ltb→le n 10 large)))

lacks-after : (c : ℕ) (f d : Bytes) → lacks c (f ++ (c ∷ d)) ≡ false
unfolding lacks
lacks-after c [] d = ground arith
lacks-after c (x ∷ f) d = ground (arith, lacks-after c f d)

-- The last dot tells a text apart.
suffix-eq :
    (f g d e : Bytes)
    → lacks b'.' d ≡ true
    → lacks b'.' e ≡ true
    → f ++ (b'.' ∷ d) ≡ g ++ (b'.' ∷ e)
    → (f ≡ g) × (d ≡ e)
suffix-eq [] [] d e h k same = (refl, cc)
suffix-eq [] (c ∷ g) d e h k same =
    let inside : d ≡ g ++ (b'.' ∷ e) = cc in
    absurd (ground (arith, inside, h, lacks-after b'.' g e))
suffix-eq (c ∷ f) [] d e h k same =
    let inside : e ≡ f ++ (b'.' ∷ d) = cc in
    absurd (ground (arith, inside, k, lacks-after b'.' f d))
suffix-eq (c ∷ f) (x ∷ g) d e h k same = let (front, rest) = suffix-eq f g d e h k cc in (cc, rest)

-- A name, a dot and a decimal text tell the name and the number.
pub dotted-injective :
    (f g : Bytes) (m n : ℕ)
    → f ++ (b'.' ∷ format_int (pos m)) ≡ g ++ (b'.' ∷ format_int (pos n))
    → (f ≡ g) × (m ≡ n)
unfolding format_int
dotted-injective f g m n same =
    let (front, d) =
      suffix-eq f g (decimal (suc m) m []) (decimal (suc n) n [])
        (lacks-decimal (suc m) m [] (omega arith) ∙ (unfold lacks in refl))
        (lacks-decimal (suc n) n [] (omega arith) ∙ (unfold lacks in refl)) same in
    (
      front,
      some-eq m n (
          (sym (digits_value-decimal (suc m) m [] (omega arith)) ∙ ap (digits_value 0) d)
          ∙ digits_value-decimal (suc n) n [] (omega arith)),
    )
  where
    some-eq : (m n : ℕ) → digits_value m [] ≡ digits_value n [] → m ≡ n
    some-eq m n h = unfold digits_value in ground arith
