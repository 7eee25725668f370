-- ===== src/Api/Url.antt =====
-- What the server reads from an encoded component: the inverse of the encoding, from the rules of
-- percent encoding and UTF-8, and the theorem that it gives the component back.
use rubber_duck.Prelude.{
  ℕ, zero, suc, ◌+◌, ◌-◌, ◌*◌, ◌/◌, ◌%◌, ◌<◌, true, false, ◌&&◌, Option, none, some, List, [], ◌∷◌,
  ◌++◌, ◌≡◌, ◌⊎◌, ◌≢◌, refl, ap, arith, ==_iff, ltb, leb, ◌==◌, if◌then◌else◌, Text, codes, All,
  All-append, holds_below, holds_below-lt, Bool-cases, inl, inr,
}
use mathlib.Core.Option.{some-injective}
use rubber_duck.Api.{
  is_kept, hex_digit, percent, percents, utf8, encode_char, encode_component, ◌>>=◌, challenges_url,
}
use rubber_duck.Cli.{strip_slashes}

pub data Percent : Type 0 where
  direct first : Percent
  second : ℕ → Percent

hex_value : ℕ → ℕ
hex_value c = if leb c b'9' then c - b'0' else c - 55

unpercent : Percent → Text → List ℕ
unfolding hex_value
unpercent mode [] = []
unpercent direct (c ∷ s) = elim (c == b'%') [
  | true ↦ unpercent first s
  | false ↦ c ∷ unpercent direct s
]
unpercent first (c ∷ s) = unpercent (second (hex_value c)) s
unpercent (second d) (c ∷ s) = (d * 16 + hex_value c) ∷ unpercent direct s

-- How many bytes follow a first byte, and what marks it.
follow : ℕ → ℕ
follow b = if ltb b 0xe0 then 1 else if ltb b 0xf0 then 2 else 3

lead : ℕ → ℕ
lead b = if ltb b 0xe0 then 0xc0 else if ltb b 0xf0 then 0xe0 else 0xf0

-- The bytes still to come of a character, and its value so far.
from_utf8 : ℕ → ℕ → List ℕ → Text
unfolding follow lead
from_utf8 need value [] = []
from_utf8 zero value (b ∷ bs) = elim (ltb b 0x80) [
  | true ↦ b ∷ from_utf8 0 0 bs
  | false ↦ from_utf8 (follow b) (b - lead b) bs
]
from_utf8 (suc zero) value (b ∷ bs) = (value * 64 + (b - 0x80)) ∷ from_utf8 0 0 bs
from_utf8 (suc (suc n)) value (b ∷ bs) = from_utf8 (suc n) (value * 64 + (b - 0x80)) bs

pub decode_component : Text → Text
unfolding unpercent from_utf8
decode_component s = from_utf8 0 0 (unpercent direct s)

-- Each byte is written as two digits that are read back.
percent_table :
    holds_below (λ b. hex_value (hex_digit (b / 16)) * 16 + hex_value (hex_digit (b % 16)) == b) 256
    ≡ true
unfolding holds_below hex_digit hex_value
percent_table = refl

percent_byte :
    (b : ℕ) → b < 256 → hex_value (hex_digit (b / 16)) * 16 + hex_value (hex_digit (b % 16)) ≡ b
percent_byte b h = (==_iff _ b).0 (holds_below-lt _ 256 percent_table b h)

unpercent-percents :
    (bs : List ℕ) (s : Text)
    → All (λ b. b < 256) bs
    → unpercent direct (percents bs ++ s) ≡ bs ++ unpercent direct s
unfolding unpercent percents
unpercent-percents [] s h = refl
unpercent-percents (b ∷ bs) s (p, h) = cc (percent_byte b p, unpercent-percents bs s h)

-- A scalar value as four groups: the bytes of each length are read back.
from_utf8-utf8 :
    (c : ℕ) (bs : List ℕ) → c < 0x110000 → from_utf8 0 0 (utf8 c ++ bs) ≡ c ∷ from_utf8 0 0 bs
unfolding from_utf8 utf8
from_utf8-utf8 c bs h = ground arith

utf8-lt : (c : ℕ) → c < 0x110000 → All (λ b. b < 256) (utf8 c)
unfolding utf8
utf8-lt c h = ground arith

is_kept_facts : (c : ℕ) → is_kept c ≡ true → (c < 128) × ((c == b'%') ≡ false)
unfolding is_kept
is_kept_facts c h = ground arith

-- An encoded character in front is decoded to that character.
decode-encode_char :
    (c : ℕ) (t s : Text)
    → c < 0x110000
    → encode_char c ≡ some t
    → from_utf8 0 0 (unpercent direct (t ++ s)) ≡ c ∷ from_utf8 0 0 (unpercent direct s)
unfolding encode_char
decode-encode_char c t s h e = elim (Bool-cases (is_kept c)) [
  | inl kept ↦
      let same : c ∷ [] ≡ t = some-injective _ _ (rw kept at e) in
      let (small, plain) = is_kept_facts c kept in
      rw (← same) (unfold unpercent from_utf8 in ground arith)
  | inr other ↦ elim (Bool-cases (leb 0xd800 c && leb c 0xdfff)) [
    | inl lone ↦ absurd (ground arith)
    | inr scalar ↦
        let same : percents (utf8 c) ≡ t = some-injective _ _ (rw (other, scalar) at e) in
        rw (← same, unpercent-percents (utf8 c) s (utf8-lt c h))
          (from_utf8-utf8 c (unpercent direct s) h)
  ]
]

-- A character that cannot end or divide a path: not a slash, `?` or `#`.
abbrev pub IsInert : ℕ → Type 0
IsInert c = (c ≢ b'/') × (c ≢ b'?') × (c ≢ b'#')

is_kept-IsInert : (c : ℕ) → is_kept c ≡ true → IsInert c
unfolding is_kept
is_kept-IsInert c h = ground arith

hex_digit-IsInert : (d : ℕ) → d < 16 → IsInert (hex_digit d)
unfolding hex_digit
hex_digit-IsInert d h = ground arith

percents-IsInert : (bs : List ℕ) → All (λ b. b < 256) bs → All IsInert (percents bs)
unfolding percents percent
percents-IsInert [] h = tt
percents-IsInert (b ∷ bs) (p, h) = (
  omega arith,
  (
    hex_digit-IsInert (b / 16) (omega arith),
    (hex_digit-IsInert (b % 16) (omega arith), percents-IsInert bs h),
  ),
)

encode_char-IsInert : (c : ℕ) (t : Text) → c < 0x110000 → encode_char c ≡ some t → All IsInert t
unfolding encode_char
encode_char-IsInert c t h e =
    ground (arith, is_kept-IsInert c, percents-IsInert (utf8 c) (utf8-lt c h))

bind-eq-some {ℓ κ} :
    {A : Type ℓ} {B : Type κ} (m : Option A) (f : A → Option B) {b : B}
    → (m >>= f) ≡ some b
    → (a : A) × (m ≡ some a) × (f a ≡ some b)
bind-eq-some none f h = cc
bind-eq-some (some a) f h = (a, refl, h)

encode_component-cons :
    (c : ℕ) (s t : Text)
    → encode_component (c ∷ s) ≡ some t
    → (t₁ t₂ : Text) × (encode_char c ≡ some t₁) × (encode_component s ≡ some t₂) × (t ≡ t₁ ++ t₂)
unfolding encode_component
encode_component-cons c s t e =
    let (t₁, e₁, e') = bind-eq-some (encode_char c) _ e in
    let (t₂, e₂, e'') = bind-eq-some (encode_component s) _ e' in (t₁, t₂, e₁, e₂, cc)

-- Decoding an encoded component gives it back: two components never share an encoding.
decode_component-encode_component :
    (s t : Text) → All (λ c. c < 0x110000) s → encode_component s ≡ some t → decode_component t ≡ s
unfolding decode_component
decode_component-encode_component [] t h e =
    let same : [] ≡ t = some-injective _ _ (unfold encode_component in e) in
    rw (← same) (unfold unpercent from_utf8 in refl)
decode_component-encode_component (c ∷ s) t (p, h) e =
    let (t₁, t₂, e₁, e₂, split) = encode_component-cons c s t e in
    rw (split, decode-encode_char c t₁ t₂ p e₁)
      (ap (c ∷◌) (decode_component-encode_component s t₂ h e₂))

-- An encoded component holds no slash, `?` or `#`, so it is one segment of the path it is put into.
encode_component-IsInert :
    (s t : Text) → All (λ c. c < 0x110000) s → encode_component s ≡ some t → All IsInert t
encode_component-IsInert [] t h e =
    let same : [] ≡ t = some-injective _ _ (unfold encode_component in e) in rw (← same) tt
encode_component-IsInert (c ∷ s) t (p, h) e =
    let (t₁, t₂, e₁, e₂, split) = encode_component-cons c s t e in
    rw split (
      All-append IsInert t₁ t₂ (encode_char-IsInert c t₁ p e₁) (encode_component-IsInert s t₂ h e₂))

-- A code point that is no lone surrogate.
abbrev pub IsScalar : ℕ → Type 0
IsScalar c = (c < 0x110000) × ((c < 0xd800) ⊎ (0xdfff < c))

encode_char-total : (c : ℕ) → IsScalar c → (t : Text) × (encode_char c ≡ some t)
unfolding encode_char
encode_char-total c h = elim (Bool-cases (is_kept c)) [
  | inl kept ↦ (c ∷ [], rw kept)
  | inr other ↦ (percents (utf8 c), ground arith)
]

encode_component-total : (s : Text) → All IsScalar s → (t : Text) × (encode_component s ≡ some t)
unfolding encode_component
encode_component-total [] h = ([], refl)
encode_component-total (c ∷ s) (p, h) =
    let (t₁, e₁) = encode_char-total c p in
    let (t₂, e₂) = encode_component-total s h in (t₁ ++ t₂, rw (e₁, e₂))

scalar-lt : (s : Text) → All IsScalar s → All (λ c. c < 0x110000) s
scalar-lt [] h = tt
scalar-lt (c ∷ s) (p, h) = (p.0, scalar-lt s h)

-- `t` stands for the component `s` in a path: one segment, which the server decodes to `s`.
abbrev pub Encodes : Text → Text → Type 0
Encodes t s = All IsInert t × (decode_component t ≡ s)

encode_component-Encodes :
    (s : Text) → All IsScalar s → (t : Text) × (encode_component s ≡ some t) × Encodes t s
encode_component-Encodes s h =
    let (t, e) = encode_component-total s h in
    (
      t,
      e,
      (
        encode_component-IsInert s t (scalar-lt s h) e,
        decode_component-encode_component s t (scalar-lt s h) e,
      ),
    )

-- For a course and a language without lone surrogates there is an address: the base's without its
-- trailing slashes, then the fixed path with one segment for each of the two. Neither segment holds
-- a slash, `?` or `#`, whatever the names hold, and the server decodes it to the name.
pub challenges_url_segments :
    (base course language : Text)
    → All IsScalar course
    → All IsScalar language
    → (c l : Text) × Encodes c course
      × Encodes l language
      × (challenges_url base course language
          ≡ some (
              strip_slashes base
              ++ (codes "/api/v1/courses/"
                  ++ (c ++ (codes "/variants/" ++ (l ++ codes "/challenges"))))))
unfolding challenges_url
challenges_url_segments base course language h k =
    let (c, e, p) = encode_component-Encodes course h in
    let (l, e', q) = encode_component-Encodes language k in (c, l, p, q, rw (e, e'))
