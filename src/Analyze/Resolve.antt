-- ===== src/Analyze/Resolve.antt =====
-- The second pass of boundary/analyze.py: `lookup_if_global` replaces the vague file "?" of a
-- callback or a callee, and the call graph is collected.
pub mod Laws
use plugsched.Common.{
  Bool, true, false, Option, none, some, List, [], ◌∷◌, ◌++◌, if◌then◌else◌, ◌==◌, map,
}
use plugsched.Common.Sets.{member, add}
use plugsched.Common.Text.{Text, codes, text_eq}
use plugsched.Common.Dict.{Dict, lookup}
use plugsched.Analyze.Meta.{Sym, sym_eq, Edge, RawEdge, MetaEdge, Meta, Config}

-- `(name, file) if file else None`
abbrev pub with_file : Text → Option Text → Option Sym
with_file name none = none
with_file name (some []) = none
with_file name (some (c ∷ file)) = some (name, c ∷ file)

unfoldable pub lookup_if_global : Dict Text Text → Sym → Option Sym
lookup_if_global global_fn_dict (name, file) =
    with_file name (if file == codes "?" then lookup name global_fn_dict else some file)

-- the body of `for callback in meta['callback']`
abbrev pub add_callback : Config → Option Sym → List Sym → List Sym
add_callback config none callbacks = callbacks
add_callback config (some callback) callbacks =
    if member callback.1 config.mod_files then add callback callbacks else callbacks

unfoldable pub scan_callbacks : Config → Dict Text Text → List Sym → List Sym → List Sym
scan_callbacks config global_fn_dict [] callbacks = callbacks
scan_callbacks config global_fn_dict (callback ∷ rest) callbacks =
    scan_callbacks config global_fn_dict rest
      (add_callback config (lookup_if_global global_fn_dict callback) callbacks)

-- `edge['to'] = lookup_if_global(edge['to'])`
unfoldable pub resolve_edge : Dict Text Text → RawEdge → MetaEdge
resolve_edge global_fn_dict edge = record {
  from = edge.from;
  to = lookup_if_global global_fn_dict edge.to;
}

-- `if edge['to']: edges.append(edge)`
abbrev pub known_edges : List MetaEdge → List Edge
known_edges [] = []
known_edges (edge ∷ rest) = elim (edge.to) [
  | none ↦ known_edges rest
  | some to_sym ↦ record { from = edge.from; to = to_sym } ∷ known_edges rest
]

-- What the second pass leaves: the callbacks, the edges of each file and all known edges.
pub record Resolved : Type 0 where
  pub callback : List Sym
  pub metas_by_name : Dict Text (List MetaEdge)
  pub edges : List Edge

unfoldable pub second_pass : Config → Dict Text Text → Dict Text Meta → Resolved → Resolved
second_pass config global_fn_dict [] resolved = resolved
second_pass config global_fn_dict ((name, meta) ∷ metas) resolved =
    let meta_edges = map (resolve_edge global_fn_dict) meta.edge in
    second_pass config global_fn_dict metas (record {
      callback = scan_callbacks config global_fn_dict meta.callback resolved.callback;
      metas_by_name = resolved.metas_by_name ++ (name, meta_edges) ∷ [];
      edges = resolved.edges ++ known_edges meta_edges;
    })
