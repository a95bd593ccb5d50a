-- ===== src/Jobs/Surface.antt =====
-- app/static/js/jobs.js: one of the two lists of job rows, the desktop table or the mobile feed.
-- A row is known by its `data-job-id` and carries the job it was last built or patched from; the
-- markup inside a row is left out. `nodes` holds the keys of the map from job ids to rows.
use fetchly.Common.{
  ℕ, String, Bool, true, false, not, ◌&&◌, List, [], ◌∷◌, ◌++◌, map, reverse, ◌==◌, if◌then◌else◌,
  length, contains, remove, add, ltb, filter,
}
use fetchly.Ecma.{Ecma, Object}
use fetchly.Jobs.Update.{get_job_id}

pub data Node : Type 0 where
  row : Object → Bool → Node
  placeholder : Node

pub record Surface : Type 0 where
  pub mounted : Bool
  pub children : List Node
  pub nodes : List String

-- `buildDesktopJob`, `buildMobileJob`
abbrev pub build_row : Object → Node
build_row job = row job false

abbrev pub is_row : Node → Bool
is_row (row _ _) = true
is_row placeholder = false

module _ (js : Ecma) where
  -- `dataset.jobId || ""`
  abbrev pub node_id : Node → String
  node_id (row job _) = get_job_id js job
  node_id placeholder = ""

  abbrev pub is_row_of : String → Node → Bool
  is_row_of k (row job _) = get_job_id js job == k
  is_row_of k placeholder = false

  -- `node.remove()`, where one row at most has the id
  unfoldable pub remove_row : String → List Node → List Node
  remove_row k [] = []
  remove_row k (c ∷ cs) = if is_row_of k c then cs else c ∷ remove_row k cs

  unfoldable pub has_row : String → List Node → Bool
  has_row k [] = false
  has_row k (c ∷ cs) = if is_row_of k c then true else has_row k cs

  abbrev pub hidden_of : Node → Bool
  hidden_of (row _ hidden) = hidden
  hidden_of placeholder = false

  unfoldable pub is_hidden : String → List Node → Bool
  is_hidden k [] = false
  is_hidden k (c ∷ cs) = if is_row_of k c then hidden_of c else is_hidden k cs

  -- `nodes.set(id, node)` for each row, in order
  unfoldable pub track : List Object → List String → List String
  track [] nodes = nodes
  track (job ∷ jobs) nodes = track jobs (add (get_job_id js job) nodes)

  -- `clearContainerEmptyState`
  abbrev pub clear_empty_state : List Node → List Node
  clear_empty_state = filter is_row

  -- `trimRenderedNodes`, over the children from the last to the first
  unfoldable pub trim_reversed : ℕ → List String → List Node → List String × List Node
  trim_reversed count nodes [] = (nodes, [])
  trim_reversed count nodes (c ∷ cs) =
      let rest = trim_reversed count (remove (node_id c) nodes) cs in
      if ltb count (length nodes) && contains (node_id c) nodes then rest else (nodes, c ∷ cs)

  unfoldable pub trim_rendered_nodes : ℕ → Surface → Surface
  trim_rendered_nodes count s =
      let (nodes, kept) = trim_reversed count s.nodes (reverse s.children) in
      if s.mounted then record s { children = reverse kept; nodes = nodes } else s

  -- `renderDesktopJobs`, `renderMobileJobs`
  unfoldable pub render_jobs : List Object → Surface → Surface
  render_jobs [] s = if s.mounted then record s { children = placeholder ∷ []; nodes = [] } else s
  render_jobs (job ∷ jobs) s =
      if s.mounted
      then record s { children = map build_row (job ∷ jobs); nodes = track (job ∷ jobs) [] }
      else s

  -- `prependRenderedJobToSurface`; `count` is the number of jobs that the lists show
  unfoldable pub prepend_to_surface : ℕ → Object → Surface → Surface
  prepend_to_surface count job s =
      let k = get_job_id js job in
      let existing = contains k s.nodes in
      let node = row job (existing && is_hidden k s.children) in
      let nodes = if existing then remove k s.nodes else s.nodes in
      let children = if existing then remove_row k s.children else s.children in
      if s.mounted
      then trim_rendered_nodes count
          (record s { children = node ∷ clear_empty_state children; nodes = add k nodes })
      else s

  -- `appendRenderedJobsToSurface`
  unfoldable pub append_to_surface : ℕ → List Object → Surface → Surface
  append_to_surface count [] s = s
  append_to_surface count (job ∷ jobs) s =
      if s.mounted
      then trim_rendered_nodes count (record s {
        children = clear_empty_state s.children ++ map build_row (job ∷ jobs);
        nodes = track (job ∷ jobs) s.nodes;
      })
      else s

  -- `hasMountedJob`
  unfoldable pub has_mounted_job : String → Surface → Bool
  has_mounted_job k s = s.mounted && not (k == "") && contains k s.nodes && has_row k s.children

  -- `patchDesktopJobNode`, `patchMobileJobNode`
  abbrev pub patch_node : Object → Node → Node
  patch_node job (row old hidden) =
      if get_job_id js old == get_job_id js job then row job hidden else row old hidden
  patch_node job placeholder = placeholder

  unfoldable pub patch_row : Object → Surface → Surface
  patch_row job s =
      if contains (get_job_id js job) s.nodes
      then record s { children = map (patch_node job) s.children }
      else s

  -- `classList.toggle("d-none", hide)` on the row of one job
  abbrev pub toggle_node : String → Bool → Node → Node
  toggle_node k hide (row job hidden) =
      if get_job_id js job == k then row job hide else row job hidden
  toggle_node k hide placeholder = placeholder

  unfoldable pub toggle_row : String → Bool → Surface → Surface
  toggle_row k hide s =
      if contains k s.nodes then record s { children = map (toggle_node k hide) s.children } else s
