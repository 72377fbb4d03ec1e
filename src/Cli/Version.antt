-- ===== src/Cli/Version.antt =====
-- `get_kernel_version` and `find_old_springboard` of cli.py, and the file lists of `__init__`. What
-- awk prints is an argument.
pub mod Exact
use plugsched.Common.{
  ℕ, Bool, true, false, ◌&&◌, ◌||◌, Option, none, some, List, [], ◌∷◌, ◌++◌, if◌then◌else◌, ◌==◌,
  nat_eq, map, filter,
}
use mathlib.Core.List.{reverse}
use plugsched.Common.Text.{Text, codes, starts_with, ends_with, occurs, replace, is_space}
use plugsched.Common.Errors.{Result, ok, err, fatal, ◌>>=◌}
use plugsched.Analyze.Meta.{Sym}

-- without the characters of a kind at the start, and at both ends
abbrev pub drop_from : (ℕ → Bool) → Text → Text
drop_from p [] = []
drop_from p (c ∷ t) = let rest = drop_from p t in if p c then rest else c ∷ t

unfoldable pub strip_of : (ℕ → Bool) → Text → Text
strip_of p t = reverse (drop_from p (reverse (drop_from p t)))

-- the characters of `' \n-'`
abbrev pub is_margin : ℕ → Bool
is_margin c = c == b' ' || (c == b'\n' || c == b'-')

abbrev pub put_before : ℕ → Option Text → Option Text
put_before c none = none
put_before c (some t) = some (c ∷ t)

-- `t[:t.find(s)]`, where `s` occurs
unfoldable pub text_before : Text → Text → Option Text
text_before s [] = if starts_with s [] then some [] else none
text_before s (c ∷ t) =
    let rest = put_before c (text_before s t) in if starts_with s (c ∷ t) then some [] else rest

-- the attributes that the method sets, of which `KREL` may stay unset
pub record Release : Type 0 where
  pub kver : Text
  pub major : Text
  pub uname_r : Text
  pub krel : Option Text

-- one round of the loop
abbrev pub or_else : Option Text → Option Text → Option Text
or_else none set = set
or_else (some found) set = some found

abbrev pub strip_arch : Text → Text → Option Text → Option Text
strip_arch krel arch set = or_else (text_before arch krel) set

unfoldable pub strip_arches : Text → List Text → Option Text → Option Text
strip_arches krel [] set = set
strip_arches krel (arch ∷ arches) set = strip_arches krel arches (strip_arch krel arch set)

abbrev pub arches : List Text
arches = codes ".x86_64" ∷ codes ".aarch64" ∷ []

abbrev pub dotted : Text → Text → Text
dotted s t = s ++ (codes "." ++ t)

-- `logging.fatal` raises through `ShutdownHandler`.
abbrev pub release_of : Text → Text → Text → Text → Result Release
release_of version patchlevel sublevel [] = err fatal
release_of version patchlevel sublevel (c ∷ krel) =
    let kver = dotted version (dotted patchlevel sublevel) in
    ok (record {
      kver = kver;
      major = dotted version patchlevel;
      uname_r = kver ++ (codes "-" ++ c ∷ krel);
      krel = strip_arches (c ∷ krel) arches none;
    })

unfoldable pub get_kernel_version : Text → Text → Text → Text → Result Release
get_kernel_version version patchlevel sublevel extraversion =
    release_of (strip_of is_space version) (strip_of is_space patchlevel)
      (strip_of is_space sublevel) (strip_of is_margin extraversion)

-- The loop over pairs of adjacent lines.
abbrev pub is_springboard : Text → Text → Bool
is_springboard line next =
    occurs (codes "no-omit-frame-pointer") line && occurs (codes "__schedule") next

unfoldable pub find_old_springboard : List Text → Bool
find_old_springboard [] = true
find_old_springboard (line ∷ []) = true
find_old_springboard (line ∷ next ∷ lines) =
    let rest = find_old_springboard (next ∷ lines) in
    if is_springboard line next then false else rest

-- the file lists
pub record Sources : Type 0 where
  pub mod_srcs : List Text
  pub mod_hdrs : List Text
  pub sdcr_srcs : List Text
  pub sdcr_objs : List Text
  pub mod_objs : List Text

unfoldable pub sources : List Text → List Sym → Sources
sources mod_files sdcr =
    let sdcr_srcs = map (λ (f : Sym). f.1) sdcr in
    record {
      mod_srcs = filter (ends_with (codes ".c")) mod_files;
      mod_hdrs = filter (ends_with (codes ".h")) mod_files;
      sdcr_srcs = sdcr_srcs;
      sdcr_objs = map (λ f. replace (codes ".c") (codes ".o") f) sdcr_srcs;
      mod_objs = map (λ f. f ++ codes ".extract") (mod_files ++ sdcr_srcs);
    }
