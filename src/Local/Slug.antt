-- ===== src/Local/Slug.antt =====
-- Which challenge a file belongs to.
use mathlib.Core.List.{reverse, reverse-cons, reverse-append, reverse-reverse}
use rubber_duck.Prelude.{
  false, ◌||◌, Option, none, some, List, [], ◌∷◌, ◌++◌, append_assoc, ◌≡◌, ◌≢◌, ◌↔◌, ◌⊎◌, refl, sym,
  ◌∙◌, ap, arith, if◌then◌else◌, Text, codes, same, same_iff, same_refl, contains, join,
  starts_with, All, All-append, Bool-cases, inl, inr,
}
use rubber_duck.Local.{
  FilePath, LocalCourse, meta_file, descend, climb, relative, before_slash, slug_of,
  challenge_slug_for,
}

-- A name of a directory entry: not empty, and no slash in it.
abbrev pub IsName : Text → Type 0
IsName n = (n ≢ []) × (contains b'/' n ≡ false)

before_slash_no_slash : (n s : Text) → contains b'/' n ≡ false → before_slash (n ++ b'/' ∷ s) ≡ n
unfolding before_slash contains
before_slash_no_slash [] s h = refl
before_slash_no_slash (c ∷ n) s h = ground (arith, before_slash_no_slash n s)

before_slash_whole : (n : Text) → contains b'/' n ≡ false → before_slash n ≡ n
unfolding before_slash contains
before_slash_whole [] h = refl
before_slash_whole (c ∷ n) h = ground (arith, before_slash_whole n)

before_slash-join :
    (n : Text) (ns : List Text)
    → contains b'/' n ≡ false
    → before_slash (join (codes "/") (n ∷ ns)) ≡ n
unfolding join
before_slash-join n [] h = before_slash_whole n h
before_slash-join n (m ∷ ns) h = before_slash_no_slash n (join (codes "/") (m ∷ ns)) h

-- Two characters that are no slash are looked for in the first name alone.
starts_with_name :
    (n s : Text) → starts_with (n ++ b'/' ∷ s) (codes "..") ≡ starts_with n (codes "..")
unfolding starts_with
starts_with_name [] s = refl
starts_with_name (a ∷ []) s = ground arith
starts_with_name (a ∷ b ∷ n) s = refl

starts_with-join :
    (n : Text) (ns : List Text)
    → starts_with (join (codes "/") (n ∷ ns)) (codes "..") ≡ starts_with n (codes "..")
unfolding join
starts_with-join n [] = refl
starts_with-join n (m ∷ ns) = starts_with_name n (join (codes "/") (m ∷ ns))

is_absolute-join :
    (n : Text) (ns : List Text)
    → IsName n
    → starts_with (join (codes "/") (n ∷ ns)) (codes "/") ≡ false
unfolding join starts_with contains
is_absolute-join [] ns (h, _) = absurd (h refl)
is_absolute-join (c ∷ n) [] (_, h) = ground arith
is_absolute-join (c ∷ n) (m ∷ ns) (_, h) = ground arith

-- What the two tests and the split come to on the names of the relative path.
abbrev first_name : List Text → Option Text
first_name [] = none
first_name (n ∷ ns) = if starts_with n (codes "..") || same n meta_file then none else some n

slug_of_name : (n : Text) → n ≢ [] → slug_of n ≡ (if same n meta_file then none else some n)
slug_of_name [] h = absurd (h refl)
slug_of_name (c ∷ n) h = ground arith

abbrev pick : Text → Option Text
pick rel =
    if starts_with rel (codes "..") || starts_with rel (codes "/")
    then none
    else slug_of (before_slash rel)

pick-join : (ns : List Text) → All IsName ns → pick (join (codes "/") ns) ≡ first_name ns
pick-join [] h = unfold join starts_with before_slash in refl
pick-join (n ∷ ns) (h, _) =
    rw
      (
        starts_with-join n ns,
        is_absolute-join n ns h,
        before_slash-join n ns h.1,
        slug_of_name n h.0,
      )
      (ground arith)

descend-append : (from to : List Text) → descend from (from ++ to) ≡ to
unfolding descend
descend-append [] to = refl
descend-append (n ∷ from) to = rw same_refl (descend-append from to)

descend-cases :
    (from to : List Text)
    → (to ≡ from ++ descend from to) ⊎ ((rest : List Text) × (descend from to ≡ codes ".." ∷ rest))
unfolding descend climb
descend-cases [] to = inl refl
descend-cases (n ∷ from) [] = inr (climb from [], refl)
descend-cases (n ∷ from) (m ∷ to) = elim (Bool-cases (same n m)) [
  | inl e ↦ elim (descend-cases from to) [
    | inl below ↦ inl (rw e (ground (arith, same_iff n m)))
    | inr (rest, up) ↦ inr (rest, rw e up)
  ]
  | inr ne ↦ inr (climb from (m ∷ to), rw ne)
]

dots-IsName : IsName (codes "..")
unfolding contains
dots-IsName = (λ e. cc, refl)

climb-All : (from to : List Text) → All IsName to → All IsName (climb from to)
unfolding climb
climb-All [] to h = h
climb-All (n ∷ from) to h = (dots-IsName, climb-All from to h)

descend-All : (from to : List Text) → All IsName to → All IsName (descend from to)
unfolding descend
descend-All [] to h = h
descend-All (n ∷ from) [] h = climb-All (n ∷ from) [] tt
descend-All (n ∷ from) (m ∷ to) h = elim (Bool-cases (same n m)) [
  | inl e ↦ rw e (descend-All from to h.1)
  | inr ne ↦ rw ne (climb-All (n ∷ from) (m ∷ to) h)
]

All-reverse : (ns : List Text) → All IsName ns → All IsName (reverse ns)
All-reverse [] h = tt
All-reverse (n ∷ ns) (p, h) =
    rw reverse-cons (All-append IsName (reverse ns) (n ∷ []) (All-reverse ns h) (p, tt))

challenge_slug_for_lem :
    (course : LocalCourse) (file : FilePath)
    → All IsName file
    → challenge_slug_for course file ≡ first_name (descend (reverse course.root) (reverse file))
unfolding challenge_slug_for
challenge_slug_for_lem course file h =
    unfold relative in
    pick-join (descend (reverse course.root) (reverse file))
      (descend-All (reverse course.root) (reverse file) (All-reverse file h))

-- A challenge's name, as opposed to the marker or a name that the test for `..` takes for a way up.
abbrev pub IsSlug : Text → Type 0
IsSlug n = (starts_with n (codes "..") ≡ false) × (n ≢ meta_file)

first_name_iff :
    (ns : List Text) (slug : Text)
    → (first_name ns ≡ some slug) ↔ (((rest : List Text) × (ns ≡ slug ∷ rest)) × IsSlug slug)
first_name_iff [] slug = (λ e. cc, λ ((rest, e), _). cc)
first_name_iff (n ∷ ns) slug = (
  λ e. ((ns, ground arith), (ground arith, ground (arith, same_iff n meta_file))),
  λ ((rest, e), (up, marker)). ground (arith, same_iff n meta_file),
)

split_back :
    (root file rest : List Text) (slug : Text)
    → reverse file ≡ reverse root ++ slug ∷ rest
    → file ≡ reverse rest ++ slug ∷ root
split_back root file rest slug e =
    sym (reverse-reverse file)
    ∙ ap reverse e
    ∙ simp (reverse-append, reverse-cons, reverse-reverse, append_assoc)

split_forth :
    (root inner : List Text) (slug : Text)
    → reverse (inner ++ slug ∷ root) ≡ reverse root ++ slug ∷ reverse inner
split_forth root inner slug = simp (reverse-append, reverse-cons, append_assoc)

way_up-IsSlug : (slug : Text) → codes ".." ≡ slug → ¬ (IsSlug slug)
way_up-IsSlug slug e (up, _) =
    let up' : starts_with (codes "..") (codes "..") ≡ false = rw (← e) at up in
    (unfold starts_with in cc)

below-of_first_name :
    (root file : FilePath) (slug : Text)
    → first_name (descend (reverse root) (reverse file)) ≡ some slug
    → ((inner : List Text) × (file ≡ inner ++ slug ∷ root)) × IsSlug slug
below-of_first_name root file slug e =
    let ((rest, names), is_slug) =
      (first_name_iff (descend (reverse root) (reverse file)) slug).0 e in
    elim (descend-cases (reverse root) (reverse file)) [
      | inl below ↦ (
        (reverse rest, split_back root file rest slug (below ∙ ap (reverse root ++◌) names)),
        is_slug,
      )
      | inr (more, up) ↦ absurd (way_up-IsSlug slug (cc) is_slug)
    ]

-- Of the files whose path consists of proper names, exactly those below the course root have a
-- challenge, and it is the first name below the root on the file's path, unless that name is the
-- marker's or begins with two dots: the name of a directory, or the file's own where it stands
-- directly in the root.
pub challenge_slug_for_iff :
    (course : LocalCourse) (file : FilePath) (slug : Text)
    → All IsName file
    → (challenge_slug_for course file ≡ some slug)
      ↔ (((inner : List Text) × (file ≡ inner ++ slug ∷ course.root)) × IsSlug slug)
challenge_slug_for_iff course file slug h = rw (challenge_slug_for_lem course file h) (
  below-of_first_name course.root file slug,
  λ ((inner, e), is_slug).
      (first_name_iff (descend (reverse course.root) (reverse file)) slug).1
        ((reverse inner, rw (e, split_forth course.root inner slug, descend-append)), is_slug),
)
