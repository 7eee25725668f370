-- ===== src/Diff/Patience.antt =====
-- internal/diff/diff.go: `patienceAnchors`. A slice is a list; the map from a line to its counts is
-- a function, which gives a line that the map does not hold the counts of a new entry. An index out
-- of range panics, here `none`.
pub mod Pairs
pub mod Tops
pub mod Invariant
pub mod Chain
pub mod Longest
use rubber_duck.Prelude.{
  ℕ, zero, suc, ◌+◌, ◌-◌, ◌/◌, Bool, true, false, ◌&&◌, Option, none, some, List, [], ◌∷◌, ◌++◌,
  ltb, ◌==◌, if◌then◌else◌, Text, same, length, get_elem?, set,
}

pub record Anchor : Type 0 where
  pub old : ℕ
  pub new : ℕ

pub record Count : Type 0 where
  pub o : ℕ
  pub n : ℕ
  pub oi : ℕ
  pub ni : ℕ

abbrev pub Counts : Type 0
Counts = Text → Count

abbrev pub no_counts : Counts
no_counts line = record { o = 0; n = 0; oi = 0; ni = 0 }

-- The bodies of the two loops over the lines.
abbrev pub note_old : ℕ → Text → Counts → Counts
note_old i line counts k =
    if same line k then record (counts k) { o = (counts k).o + 1; oi = i } else counts k

abbrev pub note_new : ℕ → Text → Counts → Counts
note_new i line counts k =
    if same line k then record (counts k) { n = (counts k).n + 1; ni = i } else counts k

unfoldable pub count_old : ℕ → List Text → Counts → Counts
unfolding same
count_old i [] counts = counts
count_old i (l ∷ lines) counts = count_old (i + 1) lines (note_old i l counts)

unfoldable pub count_new : ℕ → List Text → Counts → Counts
unfolding same
count_new i [] counts = counts
count_new i (l ∷ lines) counts = count_new (i + 1) lines (note_new i l counts)

-- The candidate pairs: the lines that are counted once on both sides.
unfoldable pub pairs_of : Counts → List Text → List Anchor
pairs_of counts [] = []
pairs_of counts (l ∷ lines) =
    let rest = pairs_of counts lines in
    let c = counts l in
    if c.o == 1 && c.n == 1 then record { old = c.oi; new = c.ni } ∷ rest else rest

unfoldable pub candidates : (old new : List Text) → List Anchor
unfolding count_old count_new pairs_of
candidates old new = pairs_of (count_new 0 new (count_old 0 old no_counts)) old

-- The slices `piles`, `pileTopPair` and `backlink`. The entries of `backlink` are set in order: it is
-- the list of those set so far, with `none` for -1.
pub record Piles : Type 0 where
  pub piles : List ℕ
  pub tops : List ℕ
  pub backlink : List (Option ℕ)

abbrev pub no_piles : Piles
no_piles = record { piles = []; tops = []; backlink = [] }

-- The binary search for the first pile whose value is not below `v`; the fuel bounds its rounds.
unfoldable pub find_pile : ℕ → List ℕ → ℕ → (lo hi : ℕ) → Option ℕ
find_pile zero piles v lo hi = none
find_pile (suc fuel) piles v lo hi =
    let mid = (lo + hi) / 2 in
    elim (ltb lo hi) [
      | false ↦ some lo
      | true ↦ elim (get_elem? piles mid) [
        | none ↦ none
        | some u ↦ elim (ltb u v) [
          | true ↦ find_pile fuel piles v (mid + 1) hi
          | false ↦ find_pile fuel piles v lo mid
        ]
      ]
    ]

-- The entry for the pair that is put on pile `lo`: the pair on top of the pile before.
abbrev pub link : List ℕ → ℕ → Option (Option ℕ)
link tops zero = some none
link tops (suc lo) = elim (get_elem? tops lo) [ none ↦ none | some j ↦ some (some j) ]

-- A new pile or a new top: append, or set the entry.
abbrev pub write : Bool → List ℕ → ℕ → ℕ → List ℕ
write fresh xs lo v = if fresh then xs ++ v ∷ [] else set xs lo v

-- Pair `i`, with value `v`, is put on pile `lo`.
abbrev pub put : ℕ → ℕ → ℕ → Piles → Option Piles
put i v lo st =
    let fresh = lo == length st.piles in
    let tops = write fresh st.tops lo i in
    elim (link tops lo) [
      | none ↦ none
      | some back ↦ some (record {
        piles = write fresh st.piles lo v;
        tops = tops;
        backlink = st.backlink ++ back ∷ [];
      })
    ]

unfoldable pub place : ℕ → Anchor → Piles → Option Piles
unfolding find_pile
place i pair st = elim (find_pile (suc (length st.piles)) st.piles pair.new 0 (length st.piles)) [
  | none ↦ none
  | some lo ↦ put i pair.new lo st
]

unfoldable pub place_all : ℕ → List Anchor → Piles → Option Piles
unfolding place
place_all i [] st = some st
place_all i (p ∷ pairs) st = elim (place i p st) [
  | none ↦ none
  | some st' ↦ place_all (i + 1) pairs st'
]

abbrev pub joined : Option (Option ℕ) → Option ℕ
joined none = none
joined (some back) = back

-- The last loop fills the chain from its end; the number is that of the entries still to fill.
unfoldable pub collect :
    List Anchor → List (Option ℕ) → ℕ → Option ℕ → List Anchor → Option (List Anchor)
collect pairs backlink zero at chain = some chain
collect pairs backlink (suc n) none chain = none
collect pairs backlink (suc n) (some j) chain = elim (get_elem? pairs j) [
  | none ↦ none
  | some a ↦ collect pairs backlink n (joined (get_elem? backlink j)) (a ∷ chain)
]

abbrev pub longest_chain : List Anchor → Option (List Anchor)
longest_chain [] = some []
longest_chain (p ∷ pairs) = elim (place_all 0 (p ∷ pairs) no_piles) [
  | none ↦ none
  | some st ↦
      collect (p ∷ pairs) st.backlink (length st.piles) (get_elem? st.tops (length st.piles - 1)) []
]

unfoldable pub patience_anchors : (old new : List Text) → Option (List Anchor)
unfolding candidates place_all collect
patience_anchors old new = longest_chain (candidates old new)
