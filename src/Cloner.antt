-- ===== src/Cloner.antt =====
-- internal/infra/git/cloner.go: the clone of a repository in a fresh temporary directory. Parsing and
-- printing the URL, the file system and git are answers of the environment.
pub mod Secret
pub mod Left
use synthy.Prelude.{
  String, List, [], ◌∷◌, ◌++◌, ◌||◌, Option, none, some, keep, not, ◌==◌, if◌then◌else◌,
}
use synthy.Exec.{
  Exec, Result, ok, err, Error, wrap, detailed, pure, raise, attempt, wrapping, on_error, lift,
  Reply, returned, failed, ◌>>=◌, ◌>>◌,
}
use synthy.World.{World, Env, Url, ticked, answer}
use synthy.Paths.{base, join}
use synthy.Text.{trim_space, replace_all}

-- What Clone returns: the path of the clone, and the directory that its cleanup removes.
pub record Clone : Type 0 where
  pub path : String
  pub parent : String

unfoldable pub redact : String → String → String
unfolding replace_all
redact s token = if token == "" then s else replace_all s token "***"

unfoldable pub sanitize_leaf : String → String
unfolding base trim_space
sanitize_leaf name =
    let leaf = base (trim_space name) in
    if leaf == "" || leaf == "." || leaf == "/" then "repo" else leaf

abbrev pub branch_args : String → List String
branch_args branch = if branch == "" then [] else "--branch" ∷ branch ∷ []

abbrev pub clone_args : String → String → String → List String
clone_args branch url dest =
    ("clone" ∷ "--depth" ∷ "1" ∷ "--single-branch" ∷ []) ++ branch_args branch ++ url ∷ dest ∷ []

module _ (env : Env) where
  abbrev signed : String → Reply Url → Result String
  signed token (returned u) = ok (
      env.print_url (if token == "" then u else record u { user = some ("x-access-token", token) }))
  signed token (failed e) = err (wrap "invalid clone url" e)

  unfoldable pub with_token : String → String → Exec World String
  with_token url token = lift (signed token (env.parse_url url))

  abbrev opened : Reply String → World → Result String × World
  opened (returned d) w = (ok d, record (ticked env w) { clones = w.clones ++ d ∷ [] })
  opened (failed e) w = (err e, ticked env w)

  -- os.MkdirTemp
  unfoldable pub make_temp : Exec World String
  make_temp w = opened (env.make_temp w.tick) w

  abbrev without : Option Error → String → World → World
  without none d w = record (ticked env w) { clones = keep (λ c. not (c == d)) w.clones }
  without (some e) d w = ticked env w

  -- os.RemoveAll
  unfoldable pub remove_all : String → Exec World (Unit {0})
  remove_all d w = (answer env (env.remove_fault w.tick) tt, without (env.remove_fault w.tick) d w)

  -- the cleanup function that Clone returns
  unfoldable pub cleanup : String → Exec World (Unit {0})
  unfolding remove_all
  cleanup parent = attempt (remove_all parent) >> pure tt

  -- cmd.Run: its failure, with what git printed
  unfoldable pub run_git : List String → Exec World (Option (Error × String))
  run_git args w = (ok (env.run_git w.tick args), ticked env w)

  abbrev pub git_done : Clone → String → Option (Error × String) → Exec World Clone
  git_done made token none = pure made
  git_done made token (some (e, stderr)) =
      raise (detailed "git clone failed" e (redact stderr token))

  unfoldable pub clone_into : Clone → String → String → String → Exec World Clone
  unfolding with_token run_git redact
  clone_into made url branch token = do
    auth_url ← with_token url token
    done ← run_git (clone_args branch auth_url made.path)
    git_done made token done

  unfoldable pub clone : String → String → String → String → Exec World Clone
  unfolding make_temp cleanup clone_into sanitize_leaf join
  clone url branch leaf token = do
    parent ← wrapping "create temp dir" make_temp
    on_error
        (clone_into (record { path = join parent (sanitize_leaf leaf); parent = parent }) url branch
          token)
        (cleanup parent)
