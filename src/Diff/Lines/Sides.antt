-- ===== src/Diff/Lines/Sides.antt =====
-- The two sides of a diff and its numbering, and what `emit` adds to them.
use rubber_duck.Prelude.{
  ℕ, ◌+◌, List, [], ◌∷◌, ◌++◌, append_assoc, append-nil, ◌≡◌, refl, sym, ap, ◌∙◌, arith, Text,
  length, length-append,
}
use rubber_duck.Diff.Lines.{Op, equal, delete, insert, Line, Emitted, emit_line, emit}

abbrev old_texts : Op → Text → List Text → List Text
old_texts equal t texts = t ∷ texts
old_texts delete t texts = t ∷ texts
old_texts insert t texts = texts

abbrev new_texts : Op → Text → List Text → List Text
new_texts equal t texts = t ∷ texts
new_texts delete t texts = texts
new_texts insert t texts = t ∷ texts

-- The lines of the old side: those that are not inserted.
unfoldable pub old_side : List Line → List Text
old_side [] = []
old_side (l ∷ ls) = old_texts l.op l.text (old_side ls)

unfoldable pub new_side : List Line → List Text
new_side [] = []
new_side (l ∷ ls) = new_texts l.op l.text (new_side ls)

-- The lines with the numbers that their places give them, from these on; 0 on a side that a line is
-- not on.
abbrev number_as : Op → Text → (o n : ℕ) → Line
number_as equal t o n = record { op = equal; text = t; old_n = o; new_n = n }
number_as delete t o n = record { op = delete; text = t; old_n = o; new_n = 0 }
number_as insert t o n = record { op = insert; text = t; old_n = 0; new_n = n }

abbrev next_old : Op → ℕ → ℕ
next_old equal o = o + 1
next_old delete o = o + 1
next_old insert o = o

abbrev next_new : Op → ℕ → ℕ
next_new equal n = n + 1
next_new delete n = n
next_new insert n = n + 1

unfoldable pub renumber : (o n : ℕ) → List Line → List Line
renumber o n [] = []
renumber o n (l ∷ ls) = number_as l.op l.text o n ∷ renumber (next_old l.op o) (next_new l.op n) ls

old_texts-append :
    (op : Op) (t : Text) (xs ys : List Text) → old_texts op t (xs ++ ys) ≡ old_texts op t xs ++ ys
old_texts-append equal t xs ys = refl
old_texts-append delete t xs ys = refl
old_texts-append insert t xs ys = refl

new_texts-append :
    (op : Op) (t : Text) (xs ys : List Text) → new_texts op t (xs ++ ys) ≡ new_texts op t xs ++ ys
new_texts-append equal t xs ys = refl
new_texts-append delete t xs ys = refl
new_texts-append insert t xs ys = refl

pub old_side-append : (xs ys : List Line) → old_side (xs ++ ys) ≡ old_side xs ++ old_side ys
unfolding old_side
old_side-append [] ys = refl
old_side-append (x ∷ xs) ys =
    ap (old_texts x.op x.text) (old_side-append xs ys)
    ∙ old_texts-append x.op x.text (old_side xs) (old_side ys)

pub new_side-append : (xs ys : List Line) → new_side (xs ++ ys) ≡ new_side xs ++ new_side ys
unfolding new_side
new_side-append [] ys = refl
new_side-append (x ∷ xs) ys =
    ap (new_texts x.op x.text) (new_side-append xs ys)
    ∙ new_texts-append x.op x.text (new_side xs) (new_side ys)

next_old-length :
    (op : Op) (t : Text) (texts : List Text) (o : ℕ)
    → next_old op o + length texts ≡ o + length (old_texts op t texts)
next_old-length equal t texts o = omega arith
next_old-length delete t texts o = omega arith
next_old-length insert t texts o = refl

next_new-length :
    (op : Op) (t : Text) (texts : List Text) (n : ℕ)
    → next_new op n + length texts ≡ n + length (new_texts op t texts)
next_new-length equal t texts n = omega arith
next_new-length delete t texts n = refl
next_new-length insert t texts n = omega arith

renumber-append :
    (o n : ℕ) (xs ys : List Line)
    → renumber o n (xs ++ ys)
      ≡ renumber o n xs ++ renumber (o + length (old_side xs)) (n + length (new_side xs)) ys
unfolding renumber old_side new_side
renumber-append o n [] ys =
    ap (λ k. renumber k n ys) (omega arith) ∙ ap (λ k. renumber (o + 0) k ys) (omega arith)
renumber-append o n (x ∷ xs) ys = ap (number_as x.op x.text o n ∷◌) (
    renumber-append (next_old x.op o) (next_new x.op n) xs ys
    ∙ ap
        (λ k.
          renumber (next_old x.op o) (next_new x.op n) xs
          ++ renumber k (next_new x.op n + length (new_side xs)) ys)
        (next_old-length x.op x.text (old_side xs) o)
    ∙ ap
        (λ k.
          renumber (next_old x.op o) (next_new x.op n) xs
          ++ renumber (o + length (old_texts x.op x.text (old_side xs))) k ys)
        (next_new-length x.op x.text (new_side xs) n))

-- `st'` is `st` with the rows of a diff of these two sides added, numbered on.
pub record Extends (old new : List Text) (st st' : Emitted) : Type 0 where
  pub added : List Line
  pub out : st'.out ≡ st.out ++ added
  pub olds : old_side added ≡ old
  pub news : new_side added ≡ new
  pub numbered : renumber st.old_n st.new_n added ≡ added
  pub old_next : st'.old_n ≡ st.old_n + length old
  pub new_next : st'.new_n ≡ st.new_n + length new

pub Extends-refl : (st : Emitted) → Extends [] [] st st
unfolding old_side new_side renumber
Extends-refl st = record {
  added = [];
  out = sym (append-nil st.out);
  olds = refl;
  news = refl;
  numbered = refl;
  old_next = omega arith;
  new_next = omega arith;
}

module _ {old₁ new₁ old₂ new₂ : List Text} {r s t : Emitted} (p : Extends old₁ new₁ r s)
    (q : Extends old₂ new₂ s t) where
  numbered_trans : renumber r.old_n r.new_n (p.added ++ q.added) ≡ p.added ++ q.added
  numbered_trans =
      renumber-append r.old_n r.new_n p.added q.added
      ∙ ap
          (◌++ renumber (r.old_n + length (old_side p.added)) (r.new_n + length (new_side p.added))
            q.added)
          p.numbered
      ∙ ap (λ k. p.added ++ renumber k (r.new_n + length (new_side p.added)) q.added)
          (omega (arith, ap length p.olds, p.old_next))
      ∙ ap (λ k. p.added ++ renumber s.old_n k q.added)
          (omega (arith, ap length p.news, p.new_next))
      ∙ ap (p.added ++◌) q.numbered

  pub Extends-trans :
      (old new : List Text) → old ≡ old₁ ++ old₂ → new ≡ new₁ ++ new₂ → Extends old new r t
  Extends-trans old new e f = record {
    added = p.added ++ q.added;
    out = q.out ∙ ap (◌++ q.added) p.out ∙ append_assoc r.out p.added q.added;
    olds =
        old_side-append p.added q.added
        ∙ ap (◌++ old_side q.added) p.olds
        ∙ ap (old₁ ++◌) q.olds
        ∙ sym e;
    news =
        new_side-append p.added q.added
        ∙ ap (◌++ new_side q.added) p.news
        ∙ ap (new₁ ++◌) q.news
        ∙ sym f;
    numbered = numbered_trans;
    old_next = omega (arith, q.old_next, p.old_next, ap length e, length-append old₁ old₂);
    new_next = omega (arith, q.new_next, p.new_next, ap length f, length-append new₁ new₂);
  }

-- The sides that `emit` adds.
abbrev pub emits_old : Op → List Text → List Text
emits_old equal texts = texts
emits_old delete texts = texts
emits_old insert texts = []

abbrev pub emits_new : Op → List Text → List Text
emits_new equal texts = texts
emits_new delete texts = []
emits_new insert texts = texts

emit_line-Extends :
    (op : Op) (t : Text) (st : Emitted)
    → Extends (emits_old op (t ∷ [])) (emits_new op (t ∷ [])) st (emit_line op t st)
unfolding emit_line old_side new_side renumber
emit_line-Extends equal t st = record {
  added = record { op = equal; text = t; old_n = st.old_n; new_n = st.new_n } ∷ [];
  out = refl;
  olds = refl;
  news = refl;
  numbered = refl;
  old_next = refl;
  new_next = refl;
}
emit_line-Extends delete t st = record {
  added = record { op = delete; text = t; old_n = st.old_n; new_n = 0 } ∷ [];
  out = refl;
  olds = refl;
  news = refl;
  numbered = refl;
  old_next = refl;
  new_next = omega arith;
}
emit_line-Extends insert t st = record {
  added = record { op = insert; text = t; old_n = 0; new_n = st.new_n } ∷ [];
  out = refl;
  olds = refl;
  news = refl;
  numbered = refl;
  old_next = omega arith;
  new_next = refl;
}

emits_old-cons :
    (op : Op) (t : Text) (ts : List Text)
    → emits_old op (t ∷ ts) ≡ emits_old op (t ∷ []) ++ emits_old op ts
emits_old-cons equal t ts = refl
emits_old-cons delete t ts = refl
emits_old-cons insert t ts = refl

emits_new-cons :
    (op : Op) (t : Text) (ts : List Text)
    → emits_new op (t ∷ ts) ≡ emits_new op (t ∷ []) ++ emits_new op ts
emits_new-cons equal t ts = refl
emits_new-cons delete t ts = refl
emits_new-cons insert t ts = refl

emits_old-nil : (op : Op) → emits_old op [] ≡ []
emits_old-nil equal = refl
emits_old-nil delete = refl
emits_old-nil insert = refl

emits_new-nil : (op : Op) → emits_new op [] ≡ []
emits_new-nil equal = refl
emits_new-nil delete = refl
emits_new-nil insert = refl

pub emit-Extends :
    (op : Op) (ts : List Text) (st : Emitted)
    → Extends (emits_old op ts) (emits_new op ts) st (emit op ts st)
unfolding emit
emit-Extends op [] st =
    Extends-trans (Extends-refl st) (Extends-refl st) (emits_old op []) (emits_new op [])
      (emits_old-nil op) (emits_new-nil op)
emit-Extends op (t ∷ ts) st =
    Extends-trans (emit_line-Extends op t st) (emit-Extends op ts (emit_line op t st))
      (emits_old op (t ∷ ts)) (emits_new op (t ∷ ts)) (emits_old-cons op t ts)
      (emits_new-cons op t ts)
