-- ===== src/Editor/Settings/Bounds.antt =====
-- Whatever is stored, the numbers loaded are in range.
use rubber_duck.Prelude.{
  ℕ, Option, none, some, ◌≡◌, inl, inr, refl, arith, ◌≤◌, leb, codes, Text, Bool-cases,
}
use mathlib.Core.Option.{some-injective}
use mathlib.Core.Path.{subst}
use native.Mathlib.Nat.{le_refl}
use rubber_duck.Json.{Json, to_text}
use rubber_duck.Number.{ℤ, pos, negsuc, or_default, parse_int}
use rubber_duck.Editor.Settings.{
  Settings, clamp, defaults, read_number, clamped, item_or_empty, both, from_json, Storage,
  load_settings, parsed, spread,
}

-- `z` is a number from `lo` to `hi`.
abbrev pub InRange : ℕ → ℕ → ℤ → Type 0
InRange lo hi (pos n) = (lo ≤ n) × (n ≤ hi)
InRange lo hi (negsuc n) = ⊥

pub record IsBounded (s : Settings) : Type 0 where
  pub font : InRange 10 24 s.font_size
  pub tab : InRange 1 8 s.tab_size

pub clamp-InRange : (z : ℤ) (lo hi : ℕ) → lo ≤ hi → InRange lo hi (clamp z (pos lo) (pos hi))
unfolding clamp
clamp-InRange (negsuc n) lo hi h = elim (Bool-cases (leb hi lo)) [
  | inl e ↦ rw e (h, le_refl hi)
  | inr e ↦ rw e (le_refl lo, h)
]
clamp-InRange (pos n) lo hi h = elim (Bool-cases (leb lo n)) [
  | inl e ↦ elim (Bool-cases (leb hi n)) [
    | inl f ↦ rw (e, f) (h, le_refl hi)
    | inr f ↦ rw (e, f) (ground arith)
  ]
  | inr e ↦ elim (Bool-cases (leb hi lo)) [
    | inl f ↦ rw (e, f) (h, le_refl hi)
    | inr f ↦ rw (e, f) (le_refl lo, h)
  ]
]

-- A number in range is left alone.
pub clamp-InRange_self : (z : ℤ) (lo hi : ℕ) → InRange lo hi z → clamp z (pos lo) (pos hi) ≡ z
unfolding clamp
clamp-InRange_self (pos n) lo hi h = ground arith
clamp-InRange_self (negsuc n) lo hi h = absurd h

defaults-IsBounded : IsBounded defaults
defaults-IsBounded = record { font = omega arith; tab = omega arith }

read_number-InRange :
    (o : Option Text) (default : ℤ) (lo hi : ℕ) (z : ℤ)
    → lo ≤ hi
    → read_number o default (pos lo) (pos hi) ≡ some z
    → InRange lo hi z
read_number-InRange none default lo hi z h e = cc
read_number-InRange (some t) default lo hi z h e =
    subst (InRange lo hi) (some-injective _ _ e)
      (clamp-InRange (or_default (parse_int t) default) lo hi h)

both-IsBounded :
    (font tab : Option ℤ) (wrap vim relative : Json)
    → ((z : ℤ) → font ≡ some z → InRange 10 24 z)
    → ((z : ℤ) → tab ≡ some z → InRange 1 8 z)
    → IsBounded (both font tab wrap vim relative)
both-IsBounded (some f) (some t) wrap vim relative h k = record { font = h f refl; tab = k t refl }
both-IsBounded (some f) none wrap vim relative h k = defaults-IsBounded
both-IsBounded none t wrap vim relative h k = defaults-IsBounded

clamped-InRange :
    (v : Json) (default : ℤ) (lo hi : ℕ) (z : ℤ)
    → lo ≤ hi
    → clamped v default (pos lo) (pos hi) ≡ some z
    → InRange lo hi z
unfolding clamped
clamped-InRange v default lo hi z h e = read_number-InRange (to_text v) default lo hi z h e

from_json-IsBounded : (v : Json) → IsBounded (from_json v)
unfolding from_json
from_json-IsBounded v =
    both-IsBounded _ _ _ _ _
      (λ z e.
        clamped-InRange (spread (codes "fontSize") (Json.num (codes "14")) v) (pos 14) 10 24 z
          (omega arith) (unfold clamped in e))
      (λ z e.
        clamped-InRange (spread (codes "tabSize") (Json.num (codes "4")) v) (pos 4) 1 8 z
          (omega arith) (unfold clamped in e))

parsed-IsBounded : (o : Option Json) → IsBounded (parsed o)
parsed-IsBounded none = defaults-IsBounded
parsed-IsBounded (some v) = from_json-IsBounded v

-- Whatever local storage holds, and whether it can be used or not, the font size that is loaded is a
-- number from 10 to 24 and the tab size one from 1 to 8.
pub load_settings-IsBounded :
    (parse : Text → Option Json) (st : Storage) → IsBounded (load_settings parse st)
unfolding load_settings
load_settings-IsBounded parse st = elim (Bool-cases st.blocked) [
  | inl e ↦ rw e defaults-IsBounded
  | inr e ↦ rw e (parsed-IsBounded (parse (item_or_empty st.item)))
]
