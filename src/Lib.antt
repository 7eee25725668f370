-- ===== src/Lib.antt =====
-- Verification library for Rubber Duck: of its client side, the VS Code extension, which finds pulled
-- courses, shows the catalog as a tree and runs the `duck` command line program, the scripts of the
-- web pages, the challenge editor and the polling of submissions, and the names that `duck` gives the
-- directories of challenges; and of the server, the proposals of new course versions with their
-- reviews, and the line diff of the review pages.
--
-- The extension. Commands (extension.ts) find the challenge that they act on through the workspace's
-- markers (local.ts) or through an item of the tree (courses.ts), whose data comes from the server
-- (api.ts); they then send a line to a terminal or run a process (cli.ts). Code lenses (codelens.ts)
-- invoke the commands with a root and a slug.
--   Cli          vscode-extension/src/cli.ts: duckPath, baseUrl, baseArgs, shellQuote; Cli/Terminal is
--                the module variable `terminal` with runInTerminal and disposeTerminal, and Cli/Process
--                is execDuck. Cli/Shell says how a POSIX shell reads a line, aliases aside,
--                independently of the code; Cli/Lexed and Cli/Quoting apply it to the lines built.
--   Api          vscode-extension/src/api.ts: loadToken, getJSON, listCourses, listChallenges.
--   Local        vscode-extension/src/local.ts: findLocalCourses, findCourseRootFor, challengeSlugFor.
--   Courses      vscode-extension/src/courses.ts: the items, and CoursesProvider with its state.
--   CodeLens     vscode-extension/src/codelens.ts: provideCodeLenses.
--   Extension    vscode-extension/src/extension.ts: resolveChallenge and the commands; a command gives
--                the list of its effects, in order. Extension/Pulling is pullCourse.
--
-- The web pages.
--   Editor       editor/src/main.js: Editor/Settings is loadSettings and saveSettings, Editor/Panel is
--                buildPanel, syncPanel and what onChange reads, Editor/Page is mount, mobileNotice,
--                init, applySettings and the listeners, and Editor/Events puts them in sequence.
--                Editor/CodeMirror is the interface of the CodeMirror library.
--   Poll         internal/web/static/poll.js: the function `tick` and its timers.
--
-- The server. A handler (internal/web/proposal_handlers.go) calls the store
-- (internal/store/proposals.go), each call one transaction; the page of a proposal shows the diff of
-- its document.
--   Proposals    internal/store/proposals.go and internal/domain/proposal.go: CreateProposal,
--                UpdateProposalMarkdown, WithdrawProposal; Proposals/Reviews is AddReview,
--                PublishProposal and the variant's row in upsertVariantTx (internal/store/courses.go),
--                and Proposals/Server is createReview and publishProposal
--                (internal/web/proposal_handlers.go) among the calls of other requests, in any order.
--                Proposals/Steps says what a step of the database is without the queries;
--                Proposals/Refined shows that the operations consist of such steps.
--   Diff         internal/diff/diff.go: Diff/Patience is patienceAnchors, Diff/Lines is Lines with emit,
--                recurse and splitLines, and Diff/Hunks is Hunks.
--
-- The command line program.
--   Ingest       internal/ingest/slug.go: OrderingPrefixLen.
--   Duck         cmd/duck/challenge.go: challengeDirNames, challengeSlug and resolveChallenge. The
--                program makes the directories that the extension's tree looks for.
--
-- Json and Number are what JavaScript's own operations make of JSON values and of numbers. Prelude
-- holds the shared notation and lemmas; a text is the list of its code points.
--
-- Parameters. The file system, `fetch`, `JSON.parse` and `JSON.stringify`, what the user picks,
-- what a process prints and the CodeMirror library are arguments, and so are, for the proposals,
-- the table of users, the threshold and the slug and language that `ingest.Parse` finds in a
-- document. An expression that throws, or a promise that rejects, is an error value or `none`. The
-- search for a marker goes down the names of a path, and a session is a list of events of any
-- length. Two definitions run on fuel: the recursion of the diff has one round more than the old
-- document has lines, since every call takes a proper part of them, and the binary search for a
-- pile one more than there are piles. In both, running out is `none`, like a panic of the code, and
-- it is proved that neither happens.
--
-- Not modelled: the times and the titles' defaults of proposals, the lists of proposals, a
-- promotion of a user between calls, the rows of courses, lessons and challenges that a publication writes,
-- failures of the database, styling, the registration of commands with the editor's host,
-- interleavings of two loads of the tree, and Windows paths. The rest of the server and of the
-- command line program (Go), the third-party scripts and the bundle of the editor in
-- internal/web/static, and the course material are no part of this library.
mod Prelude
pub mod Diff
pub mod Proposals
pub mod Ingest
pub mod Duck
pub mod Json
pub mod Number
pub mod Cli
pub mod Api
pub mod Local
pub mod Courses
pub mod CodeLens
pub mod Extension
pub mod Editor
pub mod Poll
