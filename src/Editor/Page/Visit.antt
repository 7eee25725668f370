-- ===== src/Editor/Page/Visit.antt =====
-- The branches of the loop of `init`, each as an equation.
use rubber_duck.Prelude.{Bool, true, false, some, ◌≡◌, refl}
use rubber_duck.Editor.Settings.{Settings}
use rubber_duck.Editor.CodeMirror.{CodeMirror}
use rubber_duck.Editor.Page.{Textarea, Area, mount, visit, mobile_notice}

-- A textarea once the loop has set `editorMounted`.
abbrev pub marked : Textarea → Textarea
marked t = record t { mounted = true }

module _ (cm : CodeMirror) where
  module _ (s : Settings) (a : Area cm) where
    pub visit_mounted : (mobile : Bool) → a.textarea.mounted ≡ true → visit cm mobile s a ≡ some a
    unfolding visit
    visit_mounted mobile m = rw m refl

    pub visit_wide :
        a.textarea.mounted ≡ false → visit cm false s a ≡ mount cm s (marked a.textarea)
    unfolding visit
    visit_wide m = rw m refl

    pub visit_notice :
        a.textarea.mounted ≡ false
        → a.textarea.mobile_notice ≡ true
        → visit cm true s a
          ≡ some (record { textarea = mobile_notice cm (marked a.textarea); editor = a.editor })
    unfolding visit
    visit_notice m n = rw (m, n) refl

    pub visit_plain :
        a.textarea.mounted ≡ false
        → a.textarea.mobile_notice ≡ false
        → visit cm true s a ≡ some (record { textarea = marked a.textarea; editor = a.editor })
    unfolding visit
    visit_plain m n = rw (m, n) refl
