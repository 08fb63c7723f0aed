-- ===== src/Cloner/Secret.antt =====
-- The token of a clone and the messages of git.
use synthy.Prelude.{
  String, ◌≡◌, sym, ap, arith, true, false, inl, inr, ◌==◌, Bool-cases, ==_iff, none, some, Option,
}
use synthy.Exec.{Error, err, detailed, pure, raise, lift, wrapping, on_error, ◌>>=◌}
use synthy.Exec.Rules.{Reply-cases}
use synthy.World.{World, Env}
use synthy.Text.{occurs}
use synthy.Text.Replaced.{is_empty, starless, occurs-replace_all}
use synthy.Cloner.{Clone, git_done, clone, clone_into, make_temp, with_token, run_git, redact}

full : (token : String) → is_empty token ≡ false → (token == "") ≡ false
full token h = elim (Bool-cases (token == "")) [
  | inl empty ↦ cc (h, ap is_empty ((==_iff token "").0 empty))
  | inr other ↦ other
]

pub occurs-redact :
    (s token : String)
    → is_empty token ≡ false
    → starless token ≡ true
    → occurs token (redact s token) ≡ false
unfolding redact
occurs-redact s token h free = rw (full token h) (occurs-replace_all s token h free)

module _ (env : Env) (url branch token : String) (h : is_empty token ≡ false)
    (free : starless token ≡ true) where
  git_done_redacts :
      (made : Clone) (done : Option (Error × String)) (v : World) {context text : String}
      {e : Error}
      → (git_done env made token done v).0 ≡ err (detailed context e text)
      → occurs token text ≡ false
  unfolding raise pure
  git_done_redacts made none v failed = ground (arith, failed)
  git_done_redacts made (some (e, stderr)) v {text} failed =
      let shown : redact stderr token ≡ text = ground (arith, failed) in
      rw (sym shown) (occurs-redact stderr token h free)

  clone_into_redacts :
      (made : Clone) (v : World) {context text : String} {e : Error}
      → (clone_into env made url branch token v).0 ≡ err (detailed context e text)
      → occurs token text ≡ false
  unfolding clone_into with_token run_git lift raise pure ◌>>=◌
  clone_into_redacts made v failed = elim (Reply-cases (env.parse_url url)) [
    | inr (e, bad) ↦ ground (arith, rw bad at failed)
    | inl (u, good) ↦ git_done_redacts made _ _ (rw good at failed)
  ]

  -- If the token is not empty and has no '*', then what a clone that fails quotes from git does not
  -- hold it.
  pub clone_redacts :
      (leaf : String) (w : World) {context text : String} {e : Error}
      → (clone env url branch leaf token w).0 ≡ err (detailed context e text)
      → occurs token text ≡ false
  unfolding clone make_temp wrapping on_error ◌>>=◌
  clone_redacts leaf w failed = elim (Reply-cases (env.make_temp w.tick)) [
    | inr (e, no_dir) ↦ ground (arith, rw no_dir at failed)
    | inl (d, dir) ↦ clone_into_redacts _ _ (rw dir at failed)
  ]
