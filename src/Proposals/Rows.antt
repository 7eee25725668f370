-- ===== src/Proposals/Rows.antt =====
-- Tables: predicates on all rows and on all pairs of rows, and what the queries find and change.
use rubber_duck.Prelude.{
  Bool, true, false, some, List, [], ◌∷◌, ◌++◌, ◌≡◌, ◌⊎◌, inl, inr, refl, sym, ap, ◌∙◌, arith,
  if◌then◌else◌, Bool-cases, All, All-append, In,
}
use mathlib.Core.Option.{some-injective}
use rubber_duck.Proposals.{update_where, any, first_where}

module _ {A : Type 0} where
  -- `R` holds of each row and every later one.
  abbrev pub Pairwise : (A → A → Type 0) → List A → Type 0
  Pairwise R [] = Unit
  Pairwise R (x ∷ xs) = All (R x) xs × Pairwise R xs

  pub All-In : (P : A → Type 0) (xs : List A) (x : A) → All P xs → In x xs → P x
  All-In P [] x h i = absurd i
  All-In P (y ∷ ys) x (p, h) (inl e) = rw e p
  All-In P (y ∷ ys) x (p, h) (inr i) = All-In P ys x h i

  pub All_of : (P : A → Type 0) (xs : List A) → ((x : A) → In x xs → P x) → All P xs
  All_of P [] h = tt
  All_of P (x ∷ xs) h = (h x (inl refl), All_of P xs (λ y i. h y (inr i)))

  pub All-weaken : (P Q : A → Type 0) (xs : List A) → ((x : A) → P x → Q x) → All P xs → All Q xs
  All-weaken P Q xs f h = All_of Q xs (λ x i. f x (All-In P xs x h i))

  pub In-append : (xs ys : List A) (x : A) → In x xs → In x (xs ++ ys)
  In-append [] ys x i = absurd i
  In-append (y ∷ xs) ys x (inl e) = inl e
  In-append (y ∷ xs) ys x (inr i) = inr (In-append xs ys x i)

  pub In-append_one : (xs : List A) (y x : A) → In x (xs ++ y ∷ []) → In x xs ⊎ (x ≡ y)
  In-append_one [] y x (inl e) = inr e
  In-append_one [] y x (inr i) = absurd i
  In-append_one (z ∷ xs) y x (inl e) = inl (inl e)
  In-append_one (z ∷ xs) y x (inr i) = elim (In-append_one xs y x i) [
    | inl j ↦ inl (inr j)
    | inr e ↦ inr e
  ]

  pub Pairwise-append_one :
      (R : A → A → Type 0) (xs : List A) (y : A)
      → Pairwise R xs
      → All (λ x. R x y) xs
      → Pairwise R (xs ++ y ∷ [])
  Pairwise-append_one R [] y h k = (tt, tt)
  Pairwise-append_one R (x ∷ xs) y (p, h) (q, k) =
      (All-append (R x) xs (y ∷ []) p (q, tt), Pairwise-append_one R xs y h k)

  pub Pairwise-unique :
      (R : A → A → Type 0) (xs : List A) (x y : A)
      → Pairwise R xs
      → In x xs
      → In y xs
      → (x ≡ y) ⊎ (R x y ⊎ R y x)
  Pairwise-unique R [] x y h i j = absurd i
  Pairwise-unique R (z ∷ zs) x y (p, h) (inl e) (inl f) = inl (e ∙ sym f)
  Pairwise-unique R (z ∷ zs) x y (p, h) (inl e) (inr j) = inr (inl (rw e (All-In (R z) zs y p j)))
  Pairwise-unique R (z ∷ zs) x y (p, h) (inr i) (inl f) = inr (inr (rw f (All-In (R z) zs x p i)))
  Pairwise-unique R (z ∷ zs) x y (p, h) (inr i) (inr j) = Pairwise-unique R zs x y h i j

  pub first_where-some :
      (test : A → Bool) (xs : List A) (x : A)
      → first_where test xs ≡ some x
      → In x xs × (test x ≡ true)
  unfolding first_where
  first_where-some test [] x e = absurd (ground arith)
  first_where-some test (y ∷ ys) x e = elim (Bool-cases (test y)) [
    | inl t ↦
        let same : y ≡ x = some-injective _ _ (rw t at e) in
        (inl (sym same), ap test (sym same) ∙ t)
    | inr f ↦ let (i, t) = first_where-some test ys x (rw f at e) in (inr i, t)
  ]

  pub any-false :
      (test : A → Bool) (xs : List A) (x : A) → any test xs ≡ false → In x xs → test x ≡ false
  unfolding any
  any-false test [] x e i = absurd i
  any-false test (y ∷ ys) x e (inl same) = rw same (ground arith)
  any-false test (y ∷ ys) x e (inr i) = any-false test ys x (ground arith) i

  -- The row that an update makes of a row.
  abbrev pub updated : (A → Bool) → (A → A) → A → A
  updated test change x = if test x then change x else x

  pub update_where-All :
      (P Q : A → Type 0) (test : A → Bool) (change : A → A) (xs : List A)
      → All P xs
      → ((x : A) → In x xs → P x → Q (updated test change x))
      → All Q (update_where test change xs)
  unfolding update_where
  update_where-All P Q test change [] h f = tt
  update_where-All P Q test change (x ∷ xs) (p, h) f =
      (f x (inl refl) p, update_where-All P Q test change xs h (λ y i. f y (inr i)))

  pub update_where-Pairwise :
      (R : A → A → Type 0) (test : A → Bool) (change : A → A) (xs : List A)
      → Pairwise R xs
      → ((x y : A) → In x xs → In y xs → R x y → R (updated test change x) (updated test change y))
      → Pairwise R (update_where test change xs)
  unfolding update_where
  update_where-Pairwise R test change [] h f = tt
  update_where-Pairwise R test change (x ∷ xs) (p, h) f = (
    update_where-All (R x) (R (updated test change x)) test change xs p
        (λ y i. f x y (inl refl) (inr i)),
    update_where-Pairwise R test change xs h (λ y z i j. f y z (inr i) (inr j)),
  )

  pub update_where-In :
      (test : A → Bool) (change : A → A) (xs : List A) (x : A)
      → In x xs
      → In (updated test change x) (update_where test change xs)
  unfolding update_where
  update_where-In test change [] x i = absurd i
  update_where-In test change (y ∷ ys) x (inl e) = inl (ap (updated test change) e)
  update_where-In test change (y ∷ ys) x (inr i) = inr (update_where-In test change ys x i)
