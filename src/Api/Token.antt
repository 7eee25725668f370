-- ===== src/Api/Token.antt =====
-- Where the token comes from.
use rubber_duck.Prelude.{
  ℕ, Bool, true, false, Option, none, some, [], ◌∷◌, ◌++◌, ◌≡◌, refl, ap, ◌∙◌, Text, trim,
  trim_start, drop_tail, drop_tail-split, cons_trimmed, ◌⊎◌, is_white, AllPass, last_passes,
  Bool-cases, inl, inr,
}
use rubber_duck.Api.{load_token, is_given}

abbrev pub first_passes : (ℕ → Bool) → Text → Bool
first_passes test [] = false
first_passes test (c ∷ s) = test c

-- `inner` is `whole` less the white space at both ends.
pub record IsTrimmed (whole inner : Text) : Type 0 where
  pub before : Text
  pub after : Text
  pub split : whole ≡ before ++ (inner ++ after)
  pub white_before : AllPass is_white before
  pub white_after : AllPass is_white after
  pub starts : first_passes is_white inner ≡ false
  pub ends : last_passes is_white inner ≡ false

trim_start-split :
    (s : Text)
    → (cut : Text) × (s ≡ cut ++ trim_start s)
      × AllPass is_white cut
      × (first_passes is_white (trim_start s) ≡ false)
unfolding trim_start
trim_start-split [] = ([], refl, tt, refl)
trim_start-split (c ∷ s) = elim (Bool-cases (is_white c)) [
  | inl w ↦ let (cut, e, p, l) = trim_start-split s in (c ∷ cut, rw w (ap (c ∷◌) e), (w, p), rw w l)
  | inr n ↦ ([], rw n, tt, rw n n)
]

first_passes-drop_tail :
    (test : ℕ → Bool) (s : Text)
    → first_passes test s ≡ false
    → first_passes test (drop_tail test s) ≡ false
unfolding drop_tail
first_passes-drop_tail test [] h = refl
first_passes-drop_tail test (c ∷ s) h = go (drop_tail test s)
  where
    go : (r : Text) → first_passes test (cons_trimmed test c r) ≡ false
    go [] = rw h h
    go (d ∷ r) = h

trim-IsTrimmed : (s : Text) → IsTrimmed s (trim s)
unfolding trim
trim-IsTrimmed s =
    let (before, e, p, starts) = trim_start-split s in
    let (after, e', p', ends) = drop_tail-split is_white (trim_start s) in
    record {
      before = before;
      after = after;
      split = e ∙ ap (before ++◌) e';
      white_before = p;
      white_after = p';
      starts = first_passes-drop_tail is_white (trim_start s) starts;
      ends = ends;
    }

-- The token is the environment's if that is set and not empty; otherwise it is what the token file
-- holds less the white space at both ends, and there is none if the file cannot be read.
pub load_token_lem :
    (duck_token token_file : Option Text)
    → ((is_given duck_token ≡ true) × (load_token duck_token token_file ≡ duck_token))
      ⊎ ((is_given duck_token ≡ false)
          × (token_file ≡ none)
          × (load_token duck_token token_file ≡ none))
      ⊎ ((is_given duck_token ≡ false)
          × ((content token : Text) × (token_file ≡ some content)
              × (load_token duck_token token_file ≡ some token)
              × IsTrimmed content token))
unfolding load_token
load_token_lem (some (c ∷ token)) file = inl (refl, refl)
load_token_lem none none = inr (inl (refl, refl, refl))
load_token_lem none (some content) =
    inr (inr (refl, (content, trim content, refl, refl, trim-IsTrimmed content)))
load_token_lem (some []) none = inr (inl (refl, refl, refl))
load_token_lem (some []) (some content) =
    inr (inr (refl, (content, trim content, refl, refl, trim-IsTrimmed content)))
