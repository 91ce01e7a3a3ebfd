-- ===== src/Prelude/Ordered.antt =====
-- Lists in a strict order, and the parts of a list.
use mathlib.Core.List.{reverse, reverse-append, reverse-reverse}
use vpsiner.Prelude.{
  ℕ, ◌-◌, ◌≡◌, refl, sym, ap, ◌∙◌, Bool, true, false, ◌&&◌, List, [], ◌∷◌, ◌++◌, All, All-append,
  All-keep, take, drop, keep, take_append_drop, length-reverse, length-drop, length, if◌then◌else◌,
  Bool-cases, inl, inr, arith,
}

-- Each element stands before all that follow it.
abbrev pub IsOrdered {ℓ} : {A : Type ℓ} → (A → A → Bool) → List A → Type 0
IsOrdered lt [] = Unit
IsOrdered lt (x ∷ xs) = All (λ y. lt x y ≡ true) xs × IsOrdered lt xs

pub All-map {ℓ} :
    {A : Type ℓ} {P Q : A → Type 0} (xs : List A) → ((x : A) → P x → Q x) → All P xs → All Q xs
All-map [] f h = tt
All-map (x ∷ xs) f h = (f x h.0, All-map xs f h.1)

pub IsOrdered-append {ℓ} :
    {A : Type ℓ} (lt : A → A → Bool) (xs ys : List A)
    → IsOrdered lt xs
    → IsOrdered lt ys
    → All (λ x. All (λ y. lt x y ≡ true) ys) xs
    → IsOrdered lt (xs ++ ys)
IsOrdered-append lt [] ys h k across = k
IsOrdered-append lt (x ∷ xs) ys h k across =
    (All-append (λ y. lt x y ≡ true) xs ys h.0 across.0, IsOrdered-append lt xs ys h.1 k across.1)

-- The last `n` elements, and what stands before them.
abbrev pub last_part {ℓ} : {A : Type ℓ} → ℕ → List A → List A
last_part n xs = reverse (take n (reverse xs))

abbrev pub front_part {ℓ} : {A : Type ℓ} → ℕ → List A → List A
front_part n xs = reverse (drop n (reverse xs))

module _ {A : Type 0} where
  pub parts_join : (n : ℕ) (xs : List A) → front_part n xs ++ last_part n xs ≡ xs
  parts_join n xs =
      sym (reverse-append (take n (reverse xs)) (drop n (reverse xs)))
      ∙ ap reverse (take_append_drop n (reverse xs))
      ∙ reverse-reverse xs

  pub length-front_part : (n : ℕ) (xs : List A) → length (front_part n xs) ≡ length xs - n
  length-front_part n xs =
      length-reverse (drop n (reverse xs))
      ∙ length-drop n (reverse xs)
      ∙ ap (λ k. k - n) (length-reverse xs)

  pub length_nil : (xs : List A) → length xs ≡ 0 → xs ≡ []
  length_nil [] e = refl
  length_nil (x ∷ xs) e = absurd (omega (arith, e))

  -- Of an ordered list, what stands before one of its elements.
  pub keep-All : (p : A → Bool) (xs : List A) → All (λ y. p y ≡ true) xs → keep p xs ≡ xs
  keep-All p [] h = refl
  keep-All p (x ∷ xs) h = rw (h.0, keep-All p xs h.1) refl

  pub keep-none : (p : A → Bool) (xs : List A) → All (λ y. p y ≡ false) xs → keep p xs ≡ []
  keep-none p [] h = refl
  keep-none p (x ∷ xs) h = rw (h.0, keep-none p xs h.1) refl

  pub keep-keep :
      (p q r : A → Bool) (xs : List A)
      → All (λ y. (p y && q y) ≡ r y) xs
      → keep p (keep q xs) ≡ keep r xs
  keep-keep p q r [] h = refl
  keep-keep p q r (x ∷ xs) h = ground (arith, h.0, keep-keep p q r xs h.1)

  pub All-kept : (p : A → Bool) (xs : List A) → All (λ y. p y ≡ true) (keep p xs)
  All-kept p [] = tt
  All-kept p (x ∷ xs) = kept (p x) refl (All-kept p xs)
    where
      kept :
          (b : Bool)
          → p x ≡ b
          → All (λ y. p y ≡ true) (keep p xs)
          → All (λ y. p y ≡ true) (if b then x ∷ keep p xs else keep p xs)
      kept true e h = (e, h)
      kept false e h = h

  pub All-true : {P : A → Type 0} (xs : List A) → ((x : A) → P x) → All P xs
  All-true [] f = tt
  All-true (x ∷ xs) f = (f x, All-true xs f)

  pub All-split : (P : A → Type 0) (xs ys : List A) → All P (xs ++ ys) → All P xs × All P ys
  All-split P [] ys h = (tt, h)
  All-split P (x ∷ xs) ys h = let (l, r) = All-split P xs ys h.1 in ((h.0, l), r)

  -- In an ordered list, what stands before an element are the elements less than it.
  pub less_than :
      (lt : A → A → Bool) (xs : List A) (x : A) (ys : List A)
      → IsOrdered lt (xs ++ x ∷ ys)
      → ((a b : A) → lt a b ≡ true → lt b a ≡ false)
      → ((a : A) → lt a a ≡ false)
      → keep (λ y. lt y x) (xs ++ x ∷ ys) ≡ xs
  less_than lt [] x ys h asym irr = rw (irr x) (keep-none (λ y. lt y x) ys (All-asym ys h.0))
    where
      All-asym : (zs : List A) → All (λ y. lt x y ≡ true) zs → All (λ y. lt y x ≡ false) zs
      All-asym [] k = tt
      All-asym (z ∷ zs) k = (asym x z k.0, All-asym zs k.1)
  less_than lt (a ∷ xs) x ys h asym irr =
      rw ((All-split (λ y. lt a y ≡ true) xs (x ∷ ys) h.0).1.0, less_than lt xs x ys h.1 asym irr)
        refl

  pub IsOrdered-keep :
      (lt : A → A → Bool) (p : A → Bool) (xs : List A) → IsOrdered lt xs → IsOrdered lt (keep p xs)
  IsOrdered-keep lt p [] h = tt
  IsOrdered-keep lt p (x ∷ xs) h = elim (Bool-cases (p x)) [
    | inl e ↦ rw e (All-keep (λ y. lt x y ≡ true) p xs h.0, IsOrdered-keep lt p xs h.1)
    | inr e ↦ rw e (IsOrdered-keep lt p xs h.1)
  ]

pub All-both {ℓ} :
    {A : Type ℓ} {P Q R : A → Type 0} (xs : List A)
    → ((x : A) → P x → Q x → R x)
    → All P xs
    → All Q xs
    → All R xs
All-both [] f h k = tt
All-both (x ∷ xs) f h k = (f x h.0 k.0, All-both xs f h.1 k.1)
