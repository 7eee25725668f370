-- ===== src/Editor.antt =====
-- editor/src/main.js: the code editors of a page and their settings.
pub mod Settings
pub mod Panel
pub mod CodeMirror
pub mod Page
pub mod Events
pub mod Tests
