-- ===== src/Analyze/Meta.antt =====
-- The metadata that boundary/collect.py writes and boundary/analyze.py reads.
use plugsched.Common.{ℕ, Bool, List, Option}
use plugsched.Common.{Eq, pair_eq}
use plugsched.Common.Text.{Text, text_eq}
use plugsched.Common.Dict.{Dict}

-- A signature, the tuple (name, file).
abbrev pub Sym : Type 0
Sym = Text × Text

instance unfoldable pub sym_eq : Eq Sym
unfolding text_eq
sym_eq = pair_eq

-- A row and a column, both from 0.
abbrev pub Location : Type 0
Location = ℕ × ℕ

-- `decl_str` of a function: its name, its result type and its parameters.
pub record DeclStr : Type 0 where
  pub fn : Text
  pub ret : Text
  pub params : Text

-- An entry of meta['fn'].
pub record FnMeta : Type 0 where
  pub name : Text
  pub init : Bool
  pub file : Text
  pub l_brace_loc : Location
  pub r_brace_loc : Location
  pub name_loc : Location
  pub external : Bool
  pub public : Bool
  pub static : Bool
  pub inline : Bool
  pub weak : Bool
  pub signature : Sym
  pub decl_str : Option DeclStr

-- An entry of meta['edge'] as collect.py writes it, where the file "?" is not known yet.
pub record RawEdge : Type 0 where
  pub from : Sym
  pub to : Sym

-- An entry of meta['struct'][name].
pub record StructMeta : Type 0 where
  pub all_fields : List Text
  pub public_fields : Dict Text (List Sym)

-- One metadata file, but for its variables, which analyze.py does not read.
pub record Meta : Type 0 where
  pub fn : List FnMeta
  pub interface : List Sym
  pub callback : List Sym
  pub edge : List RawEdge
  pub struct : Dict Text StructMeta

-- The configuration of the analysis, with the file lists that the main program derives from it.
pub record Config : Type 0 where
  pub mod_files : List Text
  pub sidecar : List Sym

-- An edge of the call graph whose callee is known.
pub record Edge : Type 0 where
  pub from : Sym
  pub to : Sym

-- An entry of meta['edge'] after the second pass, which stores None for a callee that is a GCC
-- built-in or an assembly function.
pub record MetaEdge : Type 0 where
  pub from : Sym
  pub to : Option Sym
