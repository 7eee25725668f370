-- ===== src/Editor/CodeMirror.antt =====
-- The CodeMirror library, as editor/src/main.js uses it: a view is created from a document and
-- extensions, some of them in compartments, and the content of a compartment is replaced by an
-- effect. The library is a parameter with the laws that its documentation states, for the texts that
-- a textarea gives: those hold no carriage return, and of a text with one the library would make the
-- line ends its own.
use rubber_duck.Prelude.{Bool, true, false, List, [], ◌∷◌, if◌then◌else◌, ◌≡◌, Text}
use rubber_duck.Number.{ℤ}

-- The compartments of an editor.
pub data Slot : Type 0 where
  keys nums font tab wrap : Slot

pub data Grammar : Type 0 where
  go python cpp javascript markdown : Grammar

-- The extensions that the script builds. `mirror` is the listener that copies the document into the
-- textarea.
pub data Ext : Type 0 where
  vim indent_with_tab relative_line_numbers basic_setup one_dark phosphor line_wrapping mirror : Ext
  language : Grammar → Ext
  font_theme : (px : ℤ) → Ext
  tab_width : (columns : ℤ) → Ext
  indent_unit : Text → Ext
  fixed_height : Text → Ext

-- An entry of the list of extensions.
pub data Entry : Type 0 where
  compartment : Slot → List Ext → Entry
  plain : List Ext → Entry

unfoldable pub same_slot : Slot → Slot → Bool
same_slot keys keys = true
same_slot nums nums = true
same_slot font font = true
same_slot tab tab = true
same_slot wrap wrap = true
same_slot _ _ = false

-- The content that a list of entries gives a compartment.
unfoldable pub initial : Slot → List Entry → List Ext
unfolding same_slot
initial s [] = []
initial s (plain es ∷ entries) = initial s entries
initial s (compartment r es ∷ entries) = if same_slot r s then es else initial s entries

-- The content after effects that reconfigure compartments.
unfoldable pub reconfigured : Slot → List (Slot × List Ext) → List Ext → List Ext
unfolding same_slot
reconfigured s [] old = old
reconfigured s ((r, es) ∷ effects) old = reconfigured s effects (if same_slot r s then es else old)

pub record CodeMirror : Type 1 where
  pub View : Type 0
  pub create : Text → List Entry → View
  pub dispatch : View → List (Slot × List Ext) → View
  pub edit : View → Text → View
  pub doc : View → Text
  pub content : View → Slot → List Ext
  pub doc-create : (d : Text) (es : List Entry) → doc (create d es) ≡ d
  pub content-create :
      (d : Text) (es : List Entry) (s : Slot) → content (create d es) s ≡ initial s es
  pub doc-dispatch : (v : View) (es : List (Slot × List Ext)) → doc (dispatch v es) ≡ doc v
  pub content-dispatch :
      (v : View) (es : List (Slot × List Ext)) (s : Slot)
      → content (dispatch v es) s ≡ reconfigured s es (content v s)
  pub doc-edit : (v : View) (d : Text) → doc (edit v d) ≡ d
  pub content-edit : (v : View) (d : Text) (s : Slot) → content (edit v d) s ≡ content v s
