-- ===== src/Lib.antt =====
-- fetchly's browser code, app/static/js.
--
-- The server renders a page with a list of jobs and a contract that groups the job statuses. In the
-- browser, jobs.js keeps the jobs in one list and shows them in a desktop table and a mobile feed;
-- events.js brings live updates over an event stream, queues them for a frame and hands them to
-- jobs.js.
--
-- Common: Boolean tests, lists over the native numbers, sets and maps of texts, signed integers.
-- Ecma: ECMAScript values as JSON gives them, objects as lists of own properties, String(v),
--   Number(v), truthiness. Number parsing and printing, trim and toLowerCase are fields of the
--   record Ecma and stand for the language's own. Finite numbers are decimals with six digits after
--   the point; binary rounding is not modelled.
-- Config: app/static/js/config.js, list sizes and the status contract; `none` is its `Error`.
-- Jobs: app/static/js/jobs.js. Jobs.State has the module's state and lookups, Jobs.Update the updates
--   (normalizeJobUpdate, mergeStoredJob), Jobs.Surface one of the two lists of rows, Jobs.Store the
--   operations on one job, Jobs.Paging loadMore and init, Jobs.Filter the search,
--   Jobs.Session the calls of a page session in any order. A row is known there by its job and whether
--   it is hidden. loadMore is two functions, before and after its await.
-- Rows: app/static/js/jobs.js again, what a row shows of its job. Rows has the texts, Rows.Cells the markup of
--   the cells, Rows.Nodes building and patching the rows of both lists (buildDesktopJob, buildMobileJob,
--   patchDesktopJobNode, patchMobileJobNode). A row is a record of what depends on its job.
-- Ui: app/static/js/ui.js, the texts of a status, the category and key of a job's action (resolveJobAction),
--   and in Ui.Buttons and Ui.Actions their markup. Ui.Size is humanSize of app/static/js/utils.js.
-- Dom, Site: the markup as a data type, and what the page is rendered with: the locale's formats, the date
--   parser and the Lalal.ai flags, which the model reads once and the code each time.
-- Api: app/static/js/api.js. Api.Attempts is one request and its retries; what the network and the signals do
--   at each attempt is a function from the number of the attempt. Api.Snippet and Api.Messages are about
--   the body of an error, Api.Shared about reads that share one request: the promise of a shared request is
--   known by its number, and a step of its model is a call, an answer or an abort.
-- Events: app/static/js/events.js. Events.Stream is the life of the stream, with the browser's and the
--   user's events as constructors; Events.Queue the queue and its flush, Events.Sequence the sequence
--   numbers, Events.Batch the merging of queued updates, Events.Backoff the delay of a reconnect.
--   Events.Reconcile is the application of a list from the server, at most three requests for it in
--   a row.
-- CurrentJob: app/static/js/current-job.js, the card with the job started last, which leaves the lists on
--   a phone (jobs.js keeps its id as the detached one).
-- Toast: app/static/js/toast.js, the messages, their timers and their removal.
-- Confirm: app/static/js/confirm.js, the confirmation dialog and its promises.
-- Links, Times: app/static/js/utils.js. Links is about the media links and redirects that are accepted;
--   the browser's URL parser is a field of the record Browser. Times is about time ranges, lengths of
--   time as text and the runs of the trim dialog; a time is a number of millionths of a second.
-- UpdateStatus: app/static/js/update-status.js, the cell of an update check.
-- Settings: app/static/js/settings.js. Settings is when the form is posted: an edit is counted, not kept, and each
--   part of an asynchronous function is a function of its own. Settings.Limits and Settings.Credentials are the
--   validation of the two forms, Settings.Versions the comparison of versions; the rest of the page is
--   not modelled.
-- Cookies: app/static/js/cookie-paste.js, the dialog that takes pasted cookies.
-- Preview: app/static/js/main.js, the preview of the link in the form. A shown text or picture is known by the link
--   it was fetched for.
-- Trim: app/static/js/trim.js, the selection and the request for its file, from the opening of the dialog until its
--   closing. The plugin for regions is an argument.
-- Examples: tests on small inputs.
--
-- Every loop is a recursion on a list, or on the number of retries left, so no fuel is used. The network is an argument: what a request
-- gives is passed to the part of the code behind the await, and the random draw of a delay is an
-- argument. Not modelled are the rest of main.js and trim.js, the other scripts (login.js,
-- job.js and the small ones), the markup of toasts, cards and dialogs, and the
-- Python code.
pub mod Common
pub mod Ecma
pub mod Config
pub mod Jobs
pub mod Events
pub mod Toast
pub mod Links
pub mod Times
pub mod CurrentJob
pub mod Confirm
pub mod UpdateStatus
pub mod Dom
pub mod Site
pub mod Ui
pub mod Rows
pub mod Api
pub mod Settings
pub mod Cookies
pub mod Preview
pub mod Trim
pub mod Examples
