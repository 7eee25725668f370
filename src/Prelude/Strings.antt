-- ===== src/Prelude/Strings.antt =====
-- Text as the list of its code points.
use Prim.Native.Nat.{ℕ, zero, suc}
use Prim.Native.Char.{code}
use Prim.Native.String.{String}
use mathlib.Core.Path.{◌≡◌, refl, ap}
use mathlib.Core.Logic.{◌↔◌, inl, inr}
use mathlib.Core.Bool.{Bool, true, false, ◌&&◌, ◌||◌}
use mathlib.Core.List.{List, [], ◌∷◌, ◌++◌}
use native.Mathlib.Omega.{arith}
use rubber_duck.Prelude.Tests.{Bool-cases, ◌==◌, leb, if◌then◌else◌}

abbrev pub Text : Type 0
Text = List ℕ

-- The code points of a literal.
abbrev pub codes : String → Text
codes String.[] = []
codes (String.◌∷◌ c s) = code c ∷ codes s

unfoldable pub same : Text → Text → Bool
same [] [] = true
same (a ∷ s) (b ∷ t) = a == b && same s t
same _ _ = false

pub same_iff : (s t : Text) → (same s t ≡ true) ↔ (s ≡ t)
unfolding same
same_iff [] [] = ground arith
same_iff [] (b ∷ t) = ground arith
same_iff (a ∷ s) [] = ground arith
same_iff (a ∷ s) (b ∷ t) = ground (arith, same_iff s t)

pub same_refl : (s : Text) → same s s ≡ true
same_refl s = (same_iff s s).1 refl

unfoldable pub contains : ℕ → Text → Bool
contains c [] = false
contains c (d ∷ s) = c == d || contains c s

unfoldable pub starts_with : Text → Text → Bool
starts_with s [] = true
starts_with [] (b ∷ t) = false
starts_with (a ∷ s) (b ∷ t) = a == b && starts_with s t

-- `parts.join(sep)`
unfoldable pub join : Text → List Text → Text
join sep [] = []
join sep (p ∷ []) = p
join sep (p ∷ q ∷ ps) = p ++ (sep ++ join sep (q ∷ ps))

-- White space and line ends, as `String.prototype.trim` and `parseInt` read them.
unfoldable pub is_white : ℕ → Bool
unfolding contains
is_white c =
    (leb 9 c && leb c 13)
    || (leb 0x2000 c && leb c 0x200a)
    || contains c (32 ∷ 160 ∷ 0x1680 ∷ 0x2028 ∷ 0x2029 ∷ 0x202f ∷ 0x205f ∷ 0x3000 ∷ 0xfeff ∷ [])

unfoldable pub trim_start : Text → Text
unfolding is_white
trim_start [] = []
trim_start (c ∷ s) = if is_white c then trim_start s else c ∷ s

abbrev pub cons_trimmed : (ℕ → Bool) → ℕ → Text → Text
cons_trimmed test c [] = if test c then [] else c ∷ []
cons_trimmed test c (d ∷ r) = c ∷ d ∷ r

-- The text less its longest tail of characters that pass the test.
unfoldable pub drop_tail : (ℕ → Bool) → Text → Text
drop_tail test [] = []
drop_tail test (c ∷ s) = cons_trimmed test c (drop_tail test s)

unfoldable pub trim : Text → Text
unfolding trim_start drop_tail
trim s = drop_tail is_white (trim_start s)

abbrev pub last_passes : (ℕ → Bool) → Text → Bool
last_passes test [] = false
last_passes test (c ∷ []) = test c
last_passes test (c ∷ d ∷ s) = last_passes test (d ∷ s)

abbrev pub replicate : ℕ → ℕ → Text
replicate zero c = []
replicate (suc n) c = c ∷ replicate n c

module _ (test : ℕ → Bool) where
  abbrev pub AllPass : Text → Type 0
  AllPass [] = Unit
  AllPass (c ∷ s) = (test c ≡ true) × AllPass s

  -- What `drop_tail` cuts off passes the test throughout, and what is left does not end in it.
  pub drop_tail-split :
      (s : Text)
      → (cut : Text) × (s ≡ drop_tail test s ++ cut)
        × AllPass cut
        × (last_passes test (drop_tail test s) ≡ false)
  unfolding drop_tail
  drop_tail-split [] = ([], refl, tt, refl)
  drop_tail-split (c ∷ s) =
      let (cut, e, p, l) = drop_tail-split s in go (drop_tail test s) cut e p l
    where
      go :
          (r cut : Text)
          → s ≡ r ++ cut
          → AllPass cut
          → last_passes test r ≡ false
          → (cut' : Text) × (c ∷ s ≡ cons_trimmed test c r ++ cut')
            × AllPass cut'
            × (last_passes test (cons_trimmed test c r) ≡ false)
      go [] cut e p l = elim (Bool-cases (test c)) [
        | inl y ↦ rw y (c ∷ cut, ap (c ∷◌) e, (y, p), refl)
        | inr n ↦ rw n (cut, ap (c ∷◌) e, p, n)
      ]
      go (d ∷ r) cut e p l = (cut, ap (c ∷◌) e, p, l)
