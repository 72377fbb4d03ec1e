-- ===== src/Analyze/Emit.antt =====
-- The headers that boundary/analyze.py writes: `get_func_decl_strs`, tainted_functions.h and
-- undefined_functions.h.
pub mod Laws
use plugsched.Common.{
  ℕ, zero, suc, ◌+◌, ◌<◌, Bool, true, false, not, Option, none, some, List, [], ◌∷◌, ◌++◌, map,
  if◌then◌else◌, ◌==◌, ltb,
}
use plugsched.Common.Sets.{member, add}
use plugsched.Common.Text.{Text, codes, text_eq}
use plugsched.Common.Dict.{Dict, lookup, get_item}
use plugsched.Common.Errors.{Result, ok, err, type_error, assert, ◌>>=◌, ◌>>◌}
use plugsched.Analyze.Meta.{Sym, sym_eq, DeclStr}
use Prim.Native.Nat.{◌/◌, ◌%◌}

-- `fmt.format(**decl_str)` for the two formats, `head({fn}, {ret}, {params})\n`
unfoldable pub format_decl : Text → DeclStr → Text
format_decl head d =
    head ++ codes "(" ++ d.fn ++ codes ", " ++ d.ret ++ codes ", " ++ d.params ++ codes ")\n"

-- `decls[fn]` is None for a function without a declaration string.
abbrev pub as_decl : Option DeclStr → Result DeclStr
as_decl none = err type_error
as_decl (some d) = ok d

-- `file != global_fn_dict.get(name)`
unfoldable pub is_local : Dict Text Text → Sym → Bool
is_local global_fn_dict (name, file) = elim (lookup name global_fn_dict) [
  | none ↦ true
  | some linked ↦ not (file == linked)
]

unfoldable pub decl_strs_from :
    Dict Text Text
    → Dict Sym (Option DeclStr)
    → Text
    → List Sym
    → List Text
    → List Text
    → Result (List Text)
decl_strs_from global_fn_dict decls head [] decl_strs local_syms = ok decl_strs
decl_strs_from global_fn_dict decls head (fn ∷ signatures) decl_strs local_syms = do
  o ← get_item fn decls
  d ← as_decl o
  let locally = is_local global_fn_dict fn
  assert (if locally then not (member fn.0 local_syms) else true)
  decl_strs_from global_fn_dict decls head signatures (add (format_decl head d) decl_strs)
      (if locally then add fn.0 local_syms else local_syms)

unfoldable pub get_func_decl_strs :
    Dict Text Text → Dict Sym (Option DeclStr) → List Sym → Text → Result (List Text)
get_func_decl_strs global_fn_dict decls signatures head =
    decl_strs_from global_fn_dict decls head signatures [] []

-- `local_sympos.get(fn, 0)`
abbrev pub or_zero : Option ℕ → ℕ
or_zero none = 0
or_zero (some n) = n

unfoldable pub und_pos : Dict Sym ℕ → Sym → ℕ
und_pos local_sympos fn = or_zero (lookup fn local_sympos)

-- `local_sympos.get(fn, 0) or 1`
abbrev pub or_one : ℕ → ℕ
or_one zero = 1
or_one (suc n) = suc n

unfoldable pub taint_pos : Dict Sym ℕ → Sym → ℕ
taint_pos local_sympos fn = or_one (und_pos local_sympos fn)

-- `str(n)`: a number has no more digits than its value plus one
unfoldable pub digits_from : ℕ → ℕ → Text
digits_from zero n = []
digits_from (suc fuel) n =
    let high = digits_from fuel (n / 10) in
    if ltb n 10 then (b'0' + n) ∷ [] else high ++ (b'0' + n % 10) ∷ []

unfoldable pub decimal : ℕ → Text
decimal n = digits_from (suc n) n

-- TAINTED_FUNCTION({},{})
unfoldable pub taint_line : Dict Sym ℕ → Sym → Text
taint_line local_sympos fn =
    codes "TAINTED_FUNCTION("
    ++ fn.0
    ++ codes ","
    ++ decimal (taint_pos local_sympos fn)
    ++ codes ")\n"

-- "{}", {}
unfoldable pub und_item : Dict Sym ℕ → Sym → Text
und_item local_sympos fn = codes "\"" ++ fn.0 ++ codes "\", " ++ decimal (und_pos local_sympos fn)

-- `'{%s}' % '},\n{'.join(unds)`
abbrev pub join_more : List Text → Text
join_more [] = codes "}"
join_more (item ∷ items) = codes "},\n{" ++ item ++ join_more items

abbrev pub join_items : List Text → Text
join_items [] = codes "{}"
join_items (item ∷ items) = codes "{" ++ item ++ join_more items

unfoldable pub tainted_functions : Dict Sym ℕ → List Sym → List Text
tainted_functions local_sympos tainted = map (taint_line local_sympos) tainted

unfoldable pub undefined_functions : Dict Sym ℕ → List Sym → Text
undefined_functions local_sympos und = join_items (map (und_item local_sympos) und)
