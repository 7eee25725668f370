-- ===== src/Editor/Page/Twice.antt =====
-- Running the script on a page again.
use rubber_duck.Prelude.{
  Bool, true, false, Option, none, some, List, [], ◌∷◌, ◌≡◌, refl, sym, ◌∙◌, arith, All, Bool-cases,
  Option-cases, inl, inr,
}
use mathlib.Core.Option.{some-injective}
use rubber_duck.Editor.Settings.{Settings}
use rubber_duck.Editor.Panel.{sync_panel}
use rubber_duck.Editor.CodeMirror.{Entry, CodeMirror}
use rubber_duck.Editor.Page.{Textarea, entries, Area, mount, visit, mobile_notice, init, ◌>>=◌}
use rubber_duck.Editor.Page.Visit.{marked, visit_mounted, visit_wide, visit_notice, visit_plain}

bind-eq-some {ℓ κ} :
    {A : Type ℓ} {B : Type κ} (m : Option A) (f : A → Option B) {b : B}
    → (m >>= f) ≡ some b
    → (a : A) × (m ≡ some a) × (f a ≡ some b)
bind-eq-some none f h = cc
bind-eq-some (some a) f h = (a, refl, h)

module _ (cm : CodeMirror) where
  mount-none : (s : Settings) (t : Textarea) → entries s t ≡ none → mount cm s t ≡ none
  unfolding mount
  mount-none s t e = unfold mount in rw e refl

  mount-some :
      (s : Settings) (t : Textarea) (es : List Entry)
      → entries s t ≡ some es
      → mount cm s t
        ≡ some (record {
          textarea = record t { shown = false };
          editor = some (record { view = cm.create t.value es; panel = sync_panel s });
        })
  unfolding mount
  mount-some s t es e = rw e refl

  -- Running the script again finds everything mounted.
  AllMarked : List (Area cm) → Type 0
  AllMarked = All (λ a. a.textarea.mounted ≡ true)

  init_again :
      (mobile : Bool) (s : Settings) (areas : List (Area cm))
      → AllMarked areas
      → init cm mobile s areas ≡ some areas
  unfolding init AllMarked
  init_again mobile s [] h = refl
  init_again mobile s (a ∷ areas) (h, hs) =
      unfold init in rw (visit_mounted cm s a mobile h, init_again mobile s areas hs) refl

  mount-marked :
      (s : Settings) (t : Textarea) (a : Area cm)
      → t.mounted ≡ true
      → mount cm s t ≡ some a
      → a.textarea.mounted ≡ true
  mount-marked s t a m e = elim (Option-cases (entries s t)) [
    | inl missing ↦ absurd (ground (arith, mount-none s t missing))
    | inr (es, found) ↦ ground (arith, mount-some s t es found)
  ]

  mobile_notice-mounted : (t : Textarea) → t.mounted ≡ true → (mobile_notice cm t).mounted ≡ true
  unfolding mobile_notice
  mobile_notice-mounted t m = m

  visit-marked :
      (mobile : Bool) (s : Settings) (a a' : Area cm)
      → visit cm mobile s a ≡ some a'
      → a'.textarea.mounted ≡ true
  visit-marked mobile s a a' e = elim (Bool-cases a.textarea.mounted) [
    | inl m ↦ ground (arith, visit_mounted cm s a mobile m)
    | inr m ↦ unmounted mobile m e
  ]
    where
      unmounted :
          (mobile : Bool)
          → a.textarea.mounted ≡ false
          → visit cm mobile s a ≡ some a'
          → a'.textarea.mounted ≡ true
      unmounted false m e =
          mount-marked s (marked a.textarea) a' refl (sym (visit_wide cm s a m) ∙ e)
      unmounted true m e = elim (Bool-cases a.textarea.mobile_notice) [
        | inl n ↦
            let same : _ ≡ a' = some-injective _ _ (sym (visit_notice cm s a m n) ∙ e) in
            rw (← same) (mobile_notice-mounted (marked a.textarea) refl)
        | inr n ↦
            let same : _ ≡ a' = some-injective _ _ (sym (visit_plain cm s a m n) ∙ e) in
            rw (← same) refl
      ]

  init-marked :
      (mobile : Bool) (s : Settings) (areas areas' : List (Area cm))
      → init cm mobile s areas ≡ some areas'
      → AllMarked areas'
  unfolding init AllMarked
  init-marked mobile s [] areas' e = let same : [] ≡ areas' = some-injective _ _ e in rw (← same) tt
  init-marked mobile s (a ∷ areas) areas' e =
      let (a', here, e') = bind-eq-some (visit cm mobile s a) _ e in
      let (more, there, e'') = bind-eq-some (init cm mobile s areas) _ e' in
      let same : a' ∷ more ≡ areas' = some-injective _ _ e'' in
      rw (← same) (visit-marked mobile s a a' here, init-marked mobile s areas more there)

  -- Running the script a second time, on a phone or not and under whatever settings, changes nothing:
  -- no textarea gets a second editor.
  pub init_twice :
      (mobile mobile' : Bool) (s s' : Settings) (areas areas' : List (Area cm))
      → init cm mobile s areas ≡ some areas'
      → init cm mobile' s' areas' ≡ some areas'
  init_twice mobile mobile' s s' areas areas' e =
      init_again mobile' s' areas' (init-marked mobile s areas areas' e)
