-- ===== src/Extract/Paths.antt =====
-- The path functions of Python that `fix_include` of boundary/extract.py calls. A path is taken
-- apart at its slashes; `cwd` holds the names of the working directory.
pub mod Names
pub mod Resolve
use plugsched.Common.{
  ℕ, Bool, true, false, ◌||◌, ◌&&◌, List, [], ◌∷◌, ◌++◌, if◌then◌else◌, ◌==◌, nat_eq,
}
use plugsched.Common.Sets.{member}
use plugsched.Common.Text.{Text, codes, text_eq, starts_with, ends_with}
use plugsched.Common.Errors.{Result, ok, err, value_error}

-- `t.split('/')`; the list of `word` and what follows is never empty
unfoldable pub split_at : ℕ → Text → Text → List Text
split_at sep word [] = word ∷ []
split_at sep word (c ∷ t) =
    let cut = word ∷ split_at sep [] t in
    let rest = split_at sep (word ++ c ∷ []) t in if c == sep then cut else rest

-- `t.split(c)`
abbrev pub split_on : ℕ → Text → List Text
split_on sep t = split_at sep [] t

-- without the last name
abbrev pub parent : List Text → List Text
parent [] = []
parent (name ∷ []) = []
parent (name ∷ next ∷ names) = name ∷ parent (next ∷ names)

-- one name of a path, from the directory `dir`
abbrev pub enter : List Text → Text → List Text
enter dir name =
    if name == [] || name == codes "."
    then dir
    else if name == codes ".."
    then parent dir
    else dir ++ name ∷ []

unfoldable pub walk : List Text → List Text → List Text
walk dir [] = dir
walk dir (name ∷ names) = walk (enter dir name) names

-- the names in `os.path.abspath(path)`
unfoldable pub absolute : List Text → Text → List Text
absolute cwd path = walk (if starts_with (codes "/") path then [] else cwd) (split_on b'/' path)

-- the names that lead from the directory of the first names to that of the second
unfoldable pub ups : List Text → List Text
ups [] = []
ups (_ ∷ names) = codes ".." ∷ ups names

unfoldable pub lead : List Text → List Text → List Text
lead [] path = path
lead (s ∷ start) [] = ups (s ∷ start)
lead (s ∷ start) (p ∷ path) =
    let rest = lead start path in if s == p then rest else ups (s ∷ start) ++ p ∷ path

-- `'/'.join(names)`
unfoldable pub join_names : List Text → Text
join_names [] = []
join_names (name ∷ []) = name
join_names (name ∷ next ∷ names) = name ++ (codes "/" ++ join_names (next ∷ names))

abbrev pub or_dot : List Text → Text
or_dot [] = codes "."
or_dot (name ∷ names) = join_names (name ∷ names)

-- `os.path.relpath(path, start)`
unfoldable pub relpath : List Text → Text → Text → Result Text
relpath cwd [] start = err value_error
relpath cwd (c ∷ path) start = ok (or_dot (lead (absolute cwd start) (absolute cwd (c ∷ path))))

-- `os.path.join(head, tail)`
unfoldable pub join_path : Text → Text → Text
join_path head tail =
    if starts_with (codes "/") tail
    then tail
    else if head == [] || ends_with (codes "/") head
    then head ++ tail
    else head ++ (codes "/" ++ tail)

-- `path[:path.rfind('/') + 1]`
unfoldable pub up_to_slash : Text → Text
up_to_slash [] = []
up_to_slash (c ∷ t) = let rest = c ∷ up_to_slash t in if member b'/' (c ∷ t) then rest else []

-- `t.rstrip('/')`
strip_slashes : Text → Text
strip_slashes [] = []
strip_slashes (c ∷ t) =
    let rest = strip_slashes t in if c == b'/' && rest == [] then [] else c ∷ rest

-- `os.path.dirname(path)`, which keeps the slashes of a path to the root
unfoldable pub dirname : Text → Text
unfolding strip_slashes
dirname path =
    let head = up_to_slash path in
    let stripped = strip_slashes head in if stripped == [] then head else stripped
