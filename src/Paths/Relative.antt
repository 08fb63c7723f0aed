-- ===== src/Paths/Relative.antt =====
-- How `rel_path` ends.
use synthy.Prelude.{String, ◌≢◌, arith, List, [], ◌∷◌, ◌==◌, Bool-cases, inl, inr}
use synthy.Exec.{Result, ok, err, panic}
use synthy.Paths.{is_abs, diverge, clean_elements, rel, rel_path, relative, relativise, same_root}

relative_calm : (p : List String × List String) → relative p ≢ panic
relative_calm ([], []) = ground arith
relative_calm ([], t ∷ target) = ground arith
relative_calm (b ∷ base, target) = elim (Bool-cases (b == "..")) [
  | inl up ↦ rw up (ground arith)
  | inr down ↦ rw down (ground arith)
]

rel_calm : (base target : String) → rel base target ≢ panic
unfolding rel
rel_calm base target = elim (Bool-cases (same_root (is_abs base) (is_abs target))) [
  | inl same ↦ rw same (relative_calm (diverge (clean_elements base) (clean_elements target)))
  | inr other ↦ rw other (ground arith)
]

relativise_calm :
    (root path : String) (r : Result String) → r ≢ panic → relativise root path r ≢ panic
relativise_calm root path (ok r) calm = ground arith
relativise_calm root path (err e) calm = ground arith
relativise_calm root path panic calm = calm

pub rel_path_calm : (root path : String) → rel_path root path ≢ panic
unfolding rel_path
rel_path_calm root path = relativise_calm root path (rel root path) (rel_calm root path)
