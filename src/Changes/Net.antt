-- ===== src/Changes/Net.antt =====
-- netFileChanges of internal/core/repository/ingestionMapper.go against the list of all mentions.
use synthy.Prelude.{
  String, ◌≡◌, refl, arith, Bool, true, false, ◌&&◌, List, [], ◌∷◌, ◌++◌, Option, none, some, Dict,
  lookup, lookup-insert, contains, contains-append, Distinct, Distinct-append_one, ◌==◌,
  if◌then◌else◌,
}
use synthy.Changes.Proto.{Commit, RepositoryEventMessage}
use synthy.Changes.{
  Mark, changed, Marks, mark, mark_all, apply_commit, apply_commits, commits_of, divide,
  net_file_changes,
}

-- What the files of a commit are said to be, in the order of the message.
abbrev mentions_as : Mark → List String → Dict Mark
mentions_as s [] = []
mentions_as s (path ∷ paths) = (path, s) ∷ mentions_as s paths

abbrev commit_mentions : Option Commit → Dict Mark
commit_mentions none = []
commit_mentions (some c) =
    mentions_as changed c.added
    ++ (mentions_as changed c.modified ++ mentions_as Mark.removed c.removed)

abbrev pub mentions : List (Option Commit) → Dict Mark
mentions [] = []
mentions (c ∷ commits) = commit_mentions c ++ mentions commits

abbrev or_else : Option Mark → Option Mark → Option Mark
or_else none o = o
or_else (some s) o = some s

-- The last mention of a path in a sequence of mentions.
abbrev pub last_mention : String → Dict Mark → Option Mark
last_mention path [] = none
last_mention path ((p, s) ∷ rest) =
    or_else (last_mention path rest) (if p == path then some s else none)

last_mention-append :
    (path : String) (xs ys : Dict Mark)
    → last_mention path (xs ++ ys) ≡ or_else (last_mention path ys) (last_mention path xs)
last_mention-append path [] ys = ground arith
last_mention-append path ((p, s) ∷ xs) ys = ground (arith, last_mention-append path xs ys)

-- The state after a sequence of marks is the last mention, and before it what was there.
state-mark_all :
    (s : Mark) (paths : List String) (m : Marks) (path : String)
    → lookup path (mark_all s paths m).state
      ≡ or_else (last_mention path (mentions_as s paths)) (lookup path m.state)
unfolding mark_all mark
state-mark_all s [] m path = refl
state-mark_all s (p ∷ paths) m path =
    ground (arith, state-mark_all s paths (mark s m p) path, lookup-insert p path s m.state)

state-apply_commit :
    (c : Option Commit) (m : Marks) (path : String)
    → lookup path (apply_commit c m).state
      ≡ or_else (last_mention path (commit_mentions c)) (lookup path m.state)
unfolding apply_commit
state-apply_commit none m path = refl
state-apply_commit (some c) m path =
    let adds = mentions_as changed c.added in
    let edits = mentions_as changed c.modified in
    let drops = mentions_as Mark.removed c.removed in
    let m1 = mark_all changed c.added m in
    let m2 = mark_all changed c.modified m1 in
    ground (
      arith,
      last_mention-append path adds (edits ++ drops),
      last_mention-append path edits drops,
      state-mark_all changed c.added m path,
      state-mark_all changed c.modified m1 path,
      state-mark_all Mark.removed c.removed m2 path,
    )

state-apply_commits :
    (cs : List (Option Commit)) (m : Marks) (path : String)
    → lookup path (apply_commits cs m).state
      ≡ or_else (last_mention path (mentions cs)) (lookup path m.state)
unfolding apply_commits
state-apply_commits [] m path = refl
state-apply_commits (c ∷ cs) m path = ground (
  arith,
  last_mention-append path (commit_mentions c) (mentions cs),
  state-apply_commits cs (apply_commit c m) path,
  state-apply_commit c m path,
)

abbrev known : Option Mark → Bool
known none = false
known (some _) = true

-- The order lists the keys of the state, each once.
record Tracks (m : Marks) : Type 0 where
  listed : (path : String) → contains path m.order ≡ known (lookup path m.state)
  distinct : Distinct m.order

mark-Tracks : (s : Mark) (p : String) {m : Marks} → Tracks m → Tracks (mark s m p)
unfolding mark contains
mark-Tracks s p {m} t = record {
  listed = λ path. ground (
    arith,
    lookup-insert p path s m.state,
    contains-append path m.order (p ∷ []),
    t.listed path,
    t.listed p,
  );
  distinct = ground (arith, t.distinct, Distinct-append_one m.order p, t.listed p);
}

mark_all-Tracks : (s : Mark) (ps : List String) {m : Marks} → Tracks m → Tracks (mark_all s ps m)
unfolding mark_all
mark_all-Tracks s [] t = t
mark_all-Tracks s (p ∷ ps) t = mark_all-Tracks s ps (mark-Tracks s p t)

apply_commits-Tracks :
    (cs : List (Option Commit)) {m : Marks} → Tracks m → Tracks (apply_commits cs m)
unfolding apply_commits apply_commit
apply_commits-Tracks [] t = t
apply_commits-Tracks (none ∷ cs) t = apply_commits-Tracks cs t
apply_commits-Tracks (some c ∷ cs) t = apply_commits-Tracks cs (
    mark_all-Tracks Mark.removed c.removed
      (mark_all-Tracks changed c.modified (mark_all-Tracks changed c.added t)))

abbrev pub is_removed : Option Mark → Bool
is_removed (some Mark.removed) = true
is_removed (some changed) = false
is_removed none = false

abbrev pub is_changed : Option Mark → Bool
is_changed (some Mark.removed) = false
is_changed (some changed) = true
is_changed none = false

abbrev unless_removed : Option Mark → Bool
unless_removed (some Mark.removed) = false
unless_removed (some changed) = true
unless_removed none = true

contains-divide :
    (state : Dict Mark) (path : String) (order : List String)
    → (contains path (divide state order).0
        ≡ (contains path order && unless_removed (lookup path state)))
      × (contains path (divide state order).1
          ≡ (contains path order && is_removed (lookup path state)))
unfolding divide contains
contains-divide state path [] = (refl, refl)
contains-divide state path (p ∷ order) = ground (arith, contains-divide state path order)

start-Tracks : Tracks (record { state = []; order = [] })
unfolding lookup contains
start-Tracks = record { listed = λ path. refl; distinct = tt }

-- A path is among the changed ones exactly if the last mention of it, over all commits in order and
-- within a commit over added, modified and removed files, adds or modifies it, and among the removed
-- ones exactly if that mention removes it. Without commits the head commit counts.
pub net_file_changes_last :
    (c : RepositoryEventMessage) (path : String)
    → (contains path (net_file_changes c).0
        ≡ is_changed (last_mention path (mentions (commits_of c.commits c.head_commit))))
      × (contains path (net_file_changes c).1
          ≡ is_removed (last_mention path (mentions (commits_of c.commits c.head_commit))))
unfolding net_file_changes lookup
net_file_changes_last c path =
    let cs = commits_of c.commits c.head_commit in
    let m = apply_commits cs (record { state = []; order = [] }) in
    ground (
      arith,
      contains-divide m.state path m.order,
      state-apply_commits cs (record { state = []; order = [] }) path,
      (apply_commits-Tracks cs start-Tracks).listed path,
    )

Distinct-divide :
    (state : Dict Mark) (order : List String)
    → Distinct order
    → Distinct (divide state order).0 × Distinct (divide state order).1
unfolding divide contains
Distinct-divide state [] d = (tt, tt)
Distinct-divide state (p ∷ order) d =
    ground (arith, Distinct-divide state order d.1, contains-divide state p order)

-- No path is listed twice, neither among the changed paths nor among the removed ones, and none is
-- in both lists.
pub net_file_changes_disjoint :
    (c : RepositoryEventMessage)
    → Distinct (net_file_changes c).0
      × Distinct (net_file_changes c).1
      × ((path : String)
          → (contains path (net_file_changes c).0 && contains path (net_file_changes c).1) ≡ false)
unfolding net_file_changes
net_file_changes_disjoint c =
    let cs = commits_of c.commits c.head_commit in
    let m = apply_commits cs (record { state = []; order = [] }) in
    let parts = Distinct-divide m.state m.order (apply_commits-Tracks cs start-Tracks).distinct in
    (parts.0, parts.1, λ path. ground (arith, contains-divide m.state path m.order))
