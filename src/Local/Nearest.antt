-- ===== src/Local/Nearest.antt =====
-- The course of a file is that of the nearest directory above it with a readable marker.
use mathlib.Core.List.{cons-ne-nil}
use rubber_duck.Prelude.{
  Option, none, some, List, [], ◌∷◌, ◌++◌, ◌≡◌, ◌≢◌, ◌↔◌, refl, sym, ap, arith, Text, Option-cases,
  inl, inr,
}
use mathlib.Core.Path.{subst}
use mathlib.Core.Option.{some-injective}
use rubber_duck.Json.{Json}
use rubber_duck.Local.{
  FilePath, dirname, LocalCourse, meta_file, read_meta, find_from, find_course_root_for,
}

module _ (read_file : FilePath → Option Text) (parse : Text → Option Json) where
  -- No directory strictly below `root` on the way down `below` has a readable marker.
  abbrev pub Unmarked : (below root : FilePath) → Type 0
  Unmarked below root =
      (p q : List Text)
      → below ≡ p ++ q
      → q ≢ []
      → read_meta read_file parse (meta_file ∷ (q ++ root)) ≡ none

  -- `c` is the course of the nearest marked directory at or above `dir`.
  abbrev pub IsNearest : FilePath → LocalCourse → Type 0
  IsNearest dir c =
      (below : FilePath) × (dir ≡ below ++ c.root)
      × (read_meta read_file parse (meta_file ∷ c.root) ≡ some c.meta)
      × Unmarked below c.root

  Unmarked-nil : (root : FilePath) → Unmarked [] root
  Unmarked-nil root [] q e ne = absurd (ne (sym e))
  Unmarked-nil root (x ∷ p) q e ne = cc

  Unmarked-cons :
      (name : Text) (below root : FilePath)
      → read_meta read_file parse (meta_file ∷ name ∷ (below ++ root)) ≡ none
      → Unmarked below root
      → Unmarked (name ∷ below) root
  Unmarked-cons name below root here rest [] q e ne = rw (← e) here
  Unmarked-cons name below root here rest (x ∷ p) q e ne = rest p q (cc) ne

  IsNearest-here :
      (dir : FilePath) (meta : Json)
      → read_meta read_file parse (meta_file ∷ dir) ≡ some meta
      → IsNearest dir (record { root = dir; meta = meta })
  IsNearest-here dir meta found = ([], refl, found, Unmarked-nil dir)

  find_from_sound :
      (dir : FilePath) (c : LocalCourse) → find_from read_file parse dir ≡ some c → IsNearest dir c
  unfolding find_from
  find_from_sound [] c e = elim (Option-cases (read_meta read_file parse (meta_file ∷ []))) [
    | inl missing ↦ absurd (ground arith)
    | inr (meta, found) ↦
        subst (IsNearest []) (some-injective _ _ (rw (found, find_from) at e))
          (IsNearest-here [] meta found)
  ]
  find_from_sound (name ∷ dir) c e =
      elim (Option-cases (read_meta read_file parse (meta_file ∷ name ∷ dir))) [
        | inl missing ↦
            let (below, split, found, unmarked) =
              find_from_sound dir c (rw (missing, find_from) at e) in
            (
              name ∷ below,
              ap (name ∷◌) split,
              found,
              Unmarked-cons name below c.root (rw (← split) missing) unmarked,
            )
        | inr (meta, found) ↦
            subst (IsNearest (name ∷ dir)) (some-injective _ _ (rw (found, find_from) at e))
              (IsNearest-here (name ∷ dir) meta found)
      ]

  find_from_complete :
      (below root : FilePath) (meta : Json)
      → read_meta read_file parse (meta_file ∷ root) ≡ some meta
      → Unmarked below root
      → find_from read_file parse (below ++ root) ≡ some (record { root = root; meta = meta })
  unfolding find_from
  find_from_complete [] [] meta found u = rw (found, find_from)
  find_from_complete [] (x ∷ root) meta found u = rw (found, find_from)
  find_from_complete (name ∷ below) root meta found u =
      rw (u [] (name ∷ below) refl (cons-ne-nil name below), find_from)
        (find_from_complete below root meta found (λ p q e ne. u (name ∷ p) q (ap (name ∷◌) e) ne))

  find_from-none_here :
      (dir : FilePath)
      → find_from read_file parse dir ≡ none
      → read_meta read_file parse (meta_file ∷ dir) ≡ none
  unfolding find_from
  find_from-none_here [] e = ground arith
  find_from-none_here (name ∷ dir) e = ground arith

  find_from-none :
      (p q : List Text)
      → find_from read_file parse (p ++ q) ≡ none
      → read_meta read_file parse (meta_file ∷ q) ≡ none
  find_from-none [] q e = find_from-none_here q e
  find_from-none (name ∷ p) q e = find_from-none p q (unfold find_from in ground arith)

-- A file's course is exactly that of the nearest directory above it whose marker can be read and
-- parsed: the search finds it, passes over unreadable markers and finds nothing else.
pub find_course_root_for_iff :
    (read_file : FilePath → Option Text) (parse : Text → Option Json) (file : FilePath)
    (c : LocalCourse)
    → (find_course_root_for read_file parse file ≡ some c)
      ↔ IsNearest read_file parse (dirname file) c
unfolding find_course_root_for
find_course_root_for_iff read_file parse file c = (
  find_from_sound read_file parse (dirname file) c,
  λ (below, split, found, unmarked).
      rw split (find_from_complete read_file parse below c.root c.meta found unmarked),
)

-- A file has no course exactly when no directory above it has a readable marker.
pub find_course_root_for-none_iff :
    (read_file : FilePath → Option Text) (parse : Text → Option Json) (file : FilePath)
    → (find_course_root_for read_file parse file ≡ none) ↔ (
        (p q : List Text)
        → dirname file ≡ p ++ q
        → read_meta read_file parse (meta_file ∷ q) ≡ none)
unfolding find_course_root_for
find_course_root_for-none_iff read_file parse file = (
  λ e p q split. find_from-none read_file parse p q (rw split at e),
  λ all. elim (Option-cases (find_from read_file parse (dirname file))) [
    | inl missing ↦ missing
    | inr (c, found) ↦
        let (below, split, marked, _) = find_from_sound read_file parse (dirname file) c found in
        absurd (ground (arith, all below c.root split))
  ],
)
