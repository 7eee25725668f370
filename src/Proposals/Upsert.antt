-- ===== src/Proposals/Upsert.antt =====
-- The write to the variants.
use rubber_duck.Prelude.{
  ℕ, ◌+◌, Bool, true, false, Option, none, some, List, [], ◌∷◌, ◌++◌, ◌==◌, ==_iff, ◌≡◌, inl, inr,
  refl, sym, ap, ◌∙◌, arith, if◌then◌else◌, Bool-cases, Option-cases, Text, same_iff, same_refl,
}
use mathlib.Core.Path.{subst₃}
use mathlib.Core.Option.{some-injective}
use rubber_duck.Proposals.{Variant, update_where, first_where, is_variant, live_version}
use rubber_duck.Proposals.Reviews.{Document, rewrite, upsert_variant}

module _ {A : Type 0} where
  first_where-append :
      (test : A → Bool) (xs ys : List A)
      → first_where test xs ≡ none
      → first_where test (xs ++ ys) ≡ first_where test ys
  unfolding first_where
  first_where-append test [] ys e = refl
  first_where-append test (x ∷ xs) ys e = elim (Bool-cases (test x)) [
    | inl t ↦ absurd (ground arith)
    | inr f ↦ rw f (first_where-append test xs ys (rw f at e))
  ]

  first_where-append_other :
      (test : A → Bool) (xs : List A) (y : A)
      → test y ≡ false
      → first_where test (xs ++ y ∷ []) ≡ first_where test xs
  unfolding first_where
  first_where-append_other test [] y e = rw e refl
  first_where-append_other test (x ∷ xs) y e = elim (Bool-cases (test x)) [
    | inl t ↦ rw t refl
    | inr f ↦ rw f (first_where-append_other test xs y e)
  ]

  first_where-update_where :
      (test : A → Bool) (change : A → A) (xs : List A) (x : A)
      → ((y : A) → test y ≡ true → test (change y) ≡ true)
      → first_where test xs ≡ some x
      → first_where test (update_where test change xs) ≡ some (change x)
  unfolding first_where update_where
  first_where-update_where test change [] x keeps e = absurd (ground arith)
  first_where-update_where test change (y ∷ ys) x keeps e = elim (Bool-cases (test y)) [
    | inl t ↦
        let same_row : y ≡ x = some-injective _ _ (rw t at e) in
        rw (t, keeps y t) (ap (λ z. some (change z)) same_row)
    | inr f ↦ rw (f, f) (first_where-update_where test change ys x keeps (rw f at e))
  ]

  first_where-update_other :
      (test other : A → Bool) (change : A → A) (xs : List A)
      → ((y : A) → test y ≡ true → (other y ≡ false) × (other (change y) ≡ false))
      → first_where other (update_where test change xs) ≡ first_where other xs
  unfolding first_where update_where
  first_where-update_other test other change [] apart = refl
  first_where-update_other test other change (y ∷ ys) apart =
      let rest = first_where-update_other test other change ys apart in
      elim (Bool-cases (test y)) [
        | inl t ↦ let (f, g) = apart y t in rw (t, f, g) rest
        | inr f ↦ rw f (ap (λ r. if other y then some y else r) rest)
      ]

first_where-one :
    {A : Type 0} (test : A → Bool) (y : A) → test y ≡ true → first_where test (y ∷ []) ≡ some y
unfolding first_where
first_where-one test y e = rw e refl

-- The variant was at the expected version and is at the next one, with the document; the others are
-- as before.
pub record Wrote (before after : List Variant) (doc : Document) (editor : Option ℕ)
    (expected version : ℕ) : Type 0 where
  pub was : live_version before doc.slug doc.language ≡ expected
  pub next : version ≡ expected + 1
  pub row : Variant
  pub live : first_where (is_variant doc.slug doc.language) after ≡ some row
  pub source : row.source_md ≡ doc.source_md
  pub at : row.version ≡ version
  pub by : row.edited_by ≡ editor
  pub others :
      (slug language : Text)
      → ¬ ((slug ≡ doc.slug) × (language ≡ doc.language))
      → first_where (is_variant slug language) after ≡ first_where (is_variant slug language) before

other_variant :
    (slug language : Text) (v : Variant) (doc : Document)
    → ¬ ((slug ≡ doc.slug) × (language ≡ doc.language))
    → is_variant doc.slug doc.language v ≡ true
    → is_variant slug language v ≡ false
other_variant slug language v doc differs is = elim (Bool-cases (is_variant slug language v)) [
  | inr differs' ↦ differs'
  | inl both ↦
      let a = (same_iff v.slug slug).0 (ground arith) in
      let b = (same_iff v.language language).0 (ground arith) in
      let c = (same_iff v.slug doc.slug).0 (ground arith) in
      let d = (same_iff v.language doc.language).0 (ground arith) in
      absurd (differs (sym a ∙ c, sym b ∙ d))
]

inserted-Wrote :
    (variants : List Variant) (row : Variant) (doc : Document) (editor : Option ℕ)
    → row ≡ record {
      slug = doc.slug;
      language = doc.language;
      source_md = doc.source_md;
      version = 1;
      edited_by = editor;
    }
    → first_where (is_variant doc.slug doc.language) variants ≡ none
    → Wrote variants (variants ++ row ∷ []) doc editor 0 1
unfolding live_version
inserted-Wrote variants row doc editor is absent =
    let own : is_variant doc.slug doc.language row ≡ true =
      rw is (ground (arith, same_refl doc.slug, same_refl doc.language)) in
    record {
      was = rw (live_version, absent) refl;
      next = refl;
      row = row;
      live =
          first_where-append (is_variant doc.slug doc.language) variants (row ∷ []) absent
          ∙ first_where-one (is_variant doc.slug doc.language) row own;
      source = ap (λ (v : Variant). v.source_md) is;
      at = ap (λ (v : Variant). v.version) is;
      by = ap (λ (v : Variant). v.edited_by) is;
      others = λ slug language differs.
          first_where-append_other (is_variant slug language) variants row
            (other_variant slug language row doc differs own);
    }

rewritten-Wrote :
    (variants : List Variant) (v : Variant) (doc : Document) (editor : Option ℕ)
    → first_where (is_variant doc.slug doc.language) variants ≡ some v
    → Wrote variants
        (update_where (is_variant doc.slug doc.language) (rewrite doc editor) variants)
        doc
        editor
        v.version
        (v.version + 1)
unfolding live_version
rewritten-Wrote variants v doc editor found = record {
  was = rw (live_version, found) refl;
  next = refl;
  row = rewrite doc editor v;
  live =
      first_where-update_where (is_variant doc.slug doc.language) (rewrite doc editor) variants v
        (λ y is. is) found;
  source = refl;
  at = refl;
  by = refl;
  others = λ slug language differs.
      first_where-update_other (is_variant doc.slug doc.language) (is_variant slug language)
        (rewrite doc editor) variants
        (λ y is. (
          other_variant slug language y doc differs is,
          other_variant slug language y doc differs is,
        ));
}

pub upsert_variant-Wrote :
    (variants after : List Variant) (doc : Document) (editor : Option ℕ) (expected version : ℕ)
    → upsert_variant variants doc editor (some expected) ≡ some (after, version)
    → Wrote variants after doc editor expected version
unfolding upsert_variant
upsert_variant-Wrote variants after doc editor expected version e =
    elim (Option-cases (first_where (is_variant doc.slug doc.language) variants)) [
      | inl absent ↦ elim (Bool-cases (expected == 0)) [
        | inr conflict ↦ absurd (let refused = rw (upsert_variant, absent, conflict) at e in cc)
        | inl new ↦
            let row : Variant = record {
              slug = doc.slug;
              language = doc.language;
              source_md = doc.source_md;
              version = 1;
              edited_by = editor;
            } in
            let result : (variants ++ row ∷ [], 1) ≡ (after, version) =
              some-injective _ _ (rw (upsert_variant, absent, new) at e) in
            subst₃ (λ l x n. Wrote variants l doc editor x n)
              (ap (λ (r : List Variant × ℕ). r.0) result) (sym ((==_iff expected 0).0 new))
              (ap (λ (r : List Variant × ℕ). r.1) result)
              (inserted-Wrote variants row doc editor refl absent)
      ]
      | inr (v, found) ↦ elim (Bool-cases (expected == v.version)) [
        | inr conflict ↦ absurd (let refused = rw (upsert_variant, found, conflict) at e in cc)
        | inl current ↦
            let result : (
              update_where (is_variant doc.slug doc.language) (rewrite doc editor) variants,
              v.version + 1,
            )
                ≡ (after, version) =
              some-injective _ _ (rw (upsert_variant, found, current) at e) in
            subst₃ (λ l x n. Wrote variants l doc editor x n)
              (ap (λ (r : List Variant × ℕ). r.0) result)
              (sym ((==_iff expected v.version).0 current))
              (ap (λ (r : List Variant × ℕ). r.1) result)
              (rewritten-Wrote variants v doc editor found)
      ]
    ]
