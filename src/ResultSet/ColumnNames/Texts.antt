-- ===== src/ResultSet/ColumnNames/Texts.antt =====
-- Texts as lists of codes: equality, membership, and the decimal text of a number.
use snowflake_connector_node.Prelude.{
  ℕ, zero, suc, ◌+◌, ◌*◌, ◌/◌, ◌%◌, ◌≤◌, ◌<◌, ◌-◌, ◌≡◌, refl, Bool, true, false, ◌&&◌, ◌||◌, List,
  [], ◌∷◌, ◌++◌, length, ltb, ◌==◌, if◌then◌else◌, Bool-cases, ◌⊎◌, inl, inr, arith, ap, sym, ◌∙◌,
}

abbrev pub Text : Type 0
Text = List ℕ

abbrev pub text_eq : Text → Text → Bool
text_eq [] [] = true
text_eq [] (y ∷ ys) = false
text_eq (x ∷ xs) [] = false
text_eq (x ∷ xs) (y ∷ ys) = x == y && text_eq xs ys

pub text_eq_refl : (t : Text) → text_eq t t ≡ true
text_eq_refl [] = refl
text_eq_refl (x ∷ xs) = ground (arith, text_eq_refl xs)

pub text_eq-eq : (s t : Text) → text_eq s t ≡ true → s ≡ t
text_eq-eq [] [] h = refl
text_eq-eq [] (y ∷ ys) h = cc
text_eq-eq (x ∷ xs) [] h = cc
text_eq-eq (x ∷ xs) (y ∷ ys) h = ground (arith, text_eq-eq xs ys)

abbrev pub contains : List Text → Text → Bool
contains [] t = false
contains (s ∷ ss) t = text_eq s t || contains ss t

-- The digits of a number in front of a text; a number below 2 ^ k has at most k digits.
abbrev decimal_before : ℕ → ℕ → Text → Text
decimal_before zero n rest = (b'0' + n) ∷ rest
decimal_before (suc k) n rest =
    let more = decimal_before k (n / 10) ((b'0' + n % 10) ∷ rest) in
    if ltb n 10 then (b'0' + n) ∷ rest else more

-- String(n) of a whole number
unfoldable pub decimal : ℕ → Text
decimal n = decimal_before n n []

-- The number that digits spell, behind those that were read.
abbrev value : ℕ → Text → ℕ
value acc [] = acc
value acc (c ∷ cs) = value (acc * 10 + (c - b'0')) cs

value-decimal_before :
    (k n : ℕ) (rest : Text) → n ≤ k → value 0 (decimal_before k n rest) ≡ value n rest
value-decimal_before zero n rest h = ap (λ m. value m rest) (omega arith)
value-decimal_before (suc k) n rest h = elim (Bool-cases (ltb n 10)) [
  | inl e ↦ rw e (ap (λ m. value m rest) (omega arith))
  | inr e ↦ rw e (
      value-decimal_before k (n / 10) ((b'0' + n % 10) ∷ rest) (ground arith)
      ∙ ap (λ m. value m rest) (omega arith))
]

pub decimal-injective : (m n : ℕ) → decimal m ≡ decimal n → m ≡ n
unfolding decimal
decimal-injective m n h =
    sym (value-decimal_before m m [] (omega arith))
    ∙ ap (value 0) h
    ∙ value-decimal_before n n [] (omega arith)

append-injective : (xs ys zs : Text) → xs ++ ys ≡ xs ++ zs → ys ≡ zs
append-injective [] ys zs h = h
append-injective (x ∷ xs) ys zs h = append-injective xs ys zs (cc)

pub suffix-injective :
    (name : Text) (m n : ℕ) → name ++ b'_' ∷ decimal m ≡ name ++ b'_' ∷ decimal n → m ≡ n
suffix-injective name m n h =
    let e = append-injective name (b'_' ∷ decimal m) (b'_' ∷ decimal n) h in
    decimal-injective m n (cc)

-- A test of `||` that succeeds.
pub or-cases : (a b : Bool) → (a || b) ≡ true → (a ≡ true) ⊎ (b ≡ true)
or-cases true b h = inl refl
or-cases false b h = inr h

pub contains-head : (t : Text) (ss : List Text) → contains (t ∷ ss) t ≡ true
contains-head t ss = ground (arith, text_eq_refl t)

pub contains-tail :
    (s : Text) (ss : List Text) (t : Text) → contains ss t ≡ true → contains (s ∷ ss) t ≡ true
contains-tail s ss t h = ground arith

-- A list without the first text that equals another one.
abbrev remove : Text → List Text → List Text
remove t [] = []
remove t (s ∷ ss) = let rest = remove t ss in if text_eq s t then ss else s ∷ rest

length-remove :
    (t : Text) (ss : List Text) → contains ss t ≡ true → length ss ≡ suc (length (remove t ss))
length-remove t [] h = cc
length-remove t (s ∷ ss) h = ground (arith, length-remove t ss)

contains-remove :
    (t u : Text) (ss : List Text)
    → text_eq t u ≡ false
    → contains ss u ≡ true
    → contains (remove t ss) u ≡ true
contains-remove t u [] n h = h
contains-remove t u (s ∷ ss) n h = elim (Bool-cases (text_eq s t)) [
  | inl e ↦ ground (arith, text_eq-eq s t e)
  | inr e ↦ ground (arith, contains-remove t u ss)
]

-- So many different texts are in a list only if it is as long.
pub pigeonhole :
    (f : ℕ → Text)
    → ((i j : ℕ) → f i ≡ f j → i ≡ j)
    → (n : ℕ) (ss : List Text) → ((i : ℕ) → i < n → contains ss (f i) ≡ true)
    → n ≤ length ss
pigeonhole f inj zero ss h = omega arith
pigeonhole f inj (suc n) ss h =
    let shorter =
      pigeonhole f inj n (remove (f n) ss)
        (λ i lt. contains-remove (f n) (f i) ss (differ i lt) (h i (omega arith))) in
    omega (arith, shorter, length-remove (f n) ss (h n (omega arith)))
  where
    differ : (i : ℕ) → i < n → text_eq (f n) (f i) ≡ false
    differ i lt = elim (Bool-cases (text_eq (f n) (f i))) [
      | inl e ↦ absurd (omega (arith, inj n i (text_eq-eq (f n) (f i) e)))
      | inr e ↦ e
    ]
