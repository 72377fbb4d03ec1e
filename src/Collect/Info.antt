-- ===== src/Collect/Info.antt =====
-- `__init__` and `collect_info` of boundary/collect.py.
pub mod Declared
use plugsched.Common.{Bool, true, false, Option, none, some, List, [], ◌==◌, map, filter}
use plugsched.Common.Text.{Text, codes, text_eq, ends_with}
use plugsched.Common.Dict.{Dict}
use plugsched.Common.Errors.{Result, ok, ◌>>=◌}
use plugsched.Analyze.Meta.{Sym, Meta, RawEdge, StructMeta}
use plugsched.Extract.Locate.{VarMeta}
use plugsched.Collect.Gcc.{Collection, Node, Variable}
use plugsched.Collect.Functions.{nothing_collected, collect_fn}
use plugsched.Collect.Graph.{collect_edge, collect_callback}
use plugsched.Collect.Structs.{collect_struct}
use plugsched.Collect.Vars.{collect_var}

-- what boundary.yaml says; `sidecar` may be None
pub record CollectConfig : Type 0 where
  pub mod_files : List Text
  pub sidecar : Option (List Sym)
  pub interface : List Text
  pub interface_prefix : List Text

-- `self.config['sidecar'] or set()`
abbrev pub sidecars : Option (List Sym) → List Sym
sidecars none = []
sidecars (some sidecar) = sidecar

unfoldable pub collection : List Text → Text → CollectConfig → Collection
collection cwd src_f config = record {
  cwd = cwd;
  src_f = src_f;
  mod_srcs = filter (ends_with (codes ".c")) config.mod_files;
  mod_hdrs = filter (ends_with (codes ".h")) config.mod_files;
  sdcr_srcs = map (λ (f : Sym). f.1) (sidecars config.sidecar);
  interface = config.interface;
  interface_prefix = config.interface_prefix;
}

-- what is written to the metadata file
pub record CollectedInfo : Type 0 where
  pub meta : Meta
  pub var : List VarMeta

-- the body below the guard; the lists are empty when the pass is run
unfoldable pub collect_all : Collection → List Node → List Variable → Result CollectedInfo
collect_all config nodes vars = do
  fns ← collect_fn config (map (λ (node : Node). node.decl) nodes) nothing_collected
  callback ← collect_callback config nodes vars
  struct ← collect_struct config nodes
  edge ← collect_edge config nodes
  var ← collect_var config vars
  ok (record {
    meta = record {
      fn = fns.fn_prop;
      interface = fns.intf_prop;
      callback = callback;
      edge = edge;
      struct = struct;
    };
    var = var;
  })

abbrev pub collect_if :
    Bool → Collection → List Node → List Variable → Result (Option CollectedInfo)
collect_if false config nodes vars = ok none
collect_if true config nodes vars = collect_all config nodes vars >>= λ info. ok (some info)

-- `p` is the name of the pass.
unfoldable pub collect_info :
    Collection → Text → List Node → List Variable → Result (Option CollectedInfo)
collect_info config p nodes vars = collect_if (p == codes "*free_lang_data") config nodes vars
