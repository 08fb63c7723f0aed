-- ===== src/Paths.antt =====
-- The functions of Go's path/filepath that the code calls, on Unix, and `RelPath` of
-- internal/core/file/service.go.
pub mod Extension
pub mod Relative
use Prim.Native.Char.{Char, code}
use Prim.Native.String.{◌++◌ as append}
use synthy.Prelude.{
  String, ℕ, Bool, true, false, not, ◌&&◌, ◌||◌, ◌≡◌, refl, List, [], ◌∷◌, ◌++◌, reverse, nat_eq,
  if◌then◌else◌, ◌==◌, String_discrete,
}
use synthy.Exec.{Result, ok, err, message, wrap}

abbrev pub is_char : ℕ → Char → Bool
is_char n c = nat_eq (code c) n

-- '/' and '.'
abbrev pub slash : ℕ
slash = 47

abbrev pub dot : ℕ
dot = 46

pub has_slash : String → Bool
has_slash String.[] = false
has_slash (String.◌∷◌ c s) = is_char slash c || has_slash s

-- filepath.Ext: from the last dot on, if no slash follows it.
unfoldable pub ext : String → String
unfolding has_slash
ext String.[] = ""
ext (String.◌∷◌ c s) =
    let later = ext s in
    if later == ""
    then (if is_char dot c && not (has_slash s) then String.◌∷◌ c s else "")
    else later

-- filepath.IsAbs
unfoldable pub is_abs : String → Bool
is_abs String.[] = false
is_abs (String.◌∷◌ c s) = is_char slash c

abbrev glue : Char → List String → List String
glue c [] = String.◌∷◌ c "" ∷ []
glue c (part ∷ parts) = String.◌∷◌ c part ∷ parts

-- strings.Split(s, "/")
unfoldable pub split : String → List String
split String.[] = "" ∷ []
split (String.◌∷◌ c s) = let rest = split s in if is_char slash c then "" ∷ rest else glue c rest

unfoldable pub join_slash : List String → String
join_slash [] = ""
join_slash (part ∷ []) = part
join_slash (part ∷ next ∷ parts) = append part (String.◌∷◌ "/" (join_slash (next ∷ parts)))

-- one element of a path after those in front of it, the last one first
abbrev climb : Bool → List String → List String
climb true [] = []
climb false [] = ".." ∷ []
climb rooted (top ∷ rest) = if top == ".." then ".." ∷ top ∷ rest else rest

abbrev push_element : Bool → List String → String → List String
push_element rooted stack e =
    if e == "" || e == "." then stack else if e == ".." then climb rooted stack else e ∷ stack

unfoldable pub elements : Bool → List String → List String → List String
elements rooted stack [] = reverse stack
elements rooted stack (e ∷ rest) = elements rooted (push_element rooted stack e) rest

-- the elements of the cleaned path
unfoldable pub clean_elements : String → List String
unfolding is_abs split elements
clean_elements p = elements (is_abs p) [] (split p)

abbrev rebuild : Bool → List String → String
rebuild true parts = String.◌∷◌ "/" (join_slash parts)
rebuild false [] = "."
rebuild false (part ∷ parts) = join_slash (part ∷ parts)

-- filepath.Clean
unfoldable pub clean : String → String
unfolding clean_elements join_slash
clean p = rebuild (is_abs p) (clean_elements p)

-- filepath.Join of two elements
unfoldable pub join : String → String → String
unfolding clean
join a b =
    if a == "" then (if b == "" then "" else clean b) else clean (append a (String.◌∷◌ "/" b))

-- the elements of base and target behind their longest common prefix
unfoldable pub diverge : List String → List String → List String × List String
diverge (b ∷ base) (t ∷ target) =
    let rest = diverge base target in if b == t then rest else (b ∷ base, t ∷ target)
diverge base target = (base, target)

abbrev ups : List String → List String
ups [] = []
ups (_ ∷ base) = ".." ∷ ups base

abbrev pub relative : List String × List String → Result String
relative ([], []) = ok "."
relative ([], t ∷ target) = ok (join_slash (t ∷ target))
relative (b ∷ base, target) =
    if b == ".."
    then err (message "Rel: can't make target relative to base")
    else ok (join_slash (ups (b ∷ base) ++ target))

abbrev pub same_root : Bool → Bool → Bool
same_root true b = b
same_root false b = not b

-- filepath.Rel
unfoldable pub rel : String → String → Result String
unfolding clean_elements join_slash diverge
rel base target =
    if same_root (is_abs base) (is_abs target)
    then relative (diverge (clean_elements base) (clean_elements target))
    else err (message "Rel: can't make target relative to base")

abbrev pub relativise : String → String → Result String → Result String
relativise root path (ok r) = ok r
relativise root path (err e) = err (wrap "relativise" e)
relativise root path Result.panic = Result.panic

-- filepath.ToSlash changes nothing on Unix.
unfoldable pub rel_path : String → String → Result String
unfolding rel
rel_path root path = relativise root path (rel root path)

-- filepath.Base
abbrev last_element : List String → String
last_element [] = ""
last_element (p ∷ parts) = let rest = last_element parts in if rest == "" then p else rest

unfoldable pub base : String → String
unfolding split
base p =
    if p == "" then "." else if last_element (split p) == "" then "/" else last_element (split p)

-- strings.TrimPrefix(ext, ".")
unfoldable pub trim_dot : String → String
trim_dot String.[] = ""
trim_dot (String.◌∷◌ c s) = if is_char dot c then s else String.◌∷◌ c s

ext_test : (ext "a.b/c.tar.go" ≡ ".go") × (ext "a.b/c" ≡ "")
unfolding ext String_discrete
ext_test = (refl, refl)

join_test : (join "/tmp/x" "a/b.go" ≡ "/tmp/x/a/b.go") × (join "/tmp/x/" "../b//./c" ≡ "/tmp/b/c")
unfolding join String_discrete
join_test = (refl, refl)

rel_test :
    (rel_path "/tmp/x" "/tmp/x/a/b.go" ≡ ok "a/b.go") × (rel_path "/tmp/x" "/tmp/y" ≡ ok "../y")
unfolding rel_path String_discrete
rel_test = (refl, refl)

base_test : (base "/tmp/a.go" ≡ "a.go") × (base "/tmp/x/" ≡ "x") × (base "//" ≡ "/")
unfolding base String_discrete
base_test = (refl, refl, refl)
