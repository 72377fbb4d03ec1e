-- ===== src/Analyze/Structs.antt =====
-- The structs of boundary_doc.yaml in boundary/analyze.py: which fields functions outside the
-- module use, and which functions these are.
pub mod Public
use plugsched.Common.{Bool, true, false, Option, none, some, List, [], ◌∷◌, ◌++◌, map}
use plugsched.Common.Sets.{member, add, union, inter, from_list}
use plugsched.Common.Text.{Text, text_eq}
use plugsched.Common.Dict.{Dict, lookup}
use plugsched.Analyze.Meta.{Sym, sym_eq, StructMeta, Meta}

-- struct_properties[struct]
pub record StructProperties : Type 0 where
  pub all_fields : List Text
  pub public_fields : List Text
  pub public_users : List Sym

-- `if p_user: user_set |= p_user; field_set.add(field)`
abbrev pub add_users : Text → List Sym → StructProperties → StructProperties
add_users field [] props = props
add_users field (user ∷ p_user) props = record props {
  public_fields = add field props.public_fields;
  public_users = union (user ∷ p_user) props.public_users;
}

-- the loop over the public fields of a struct in one file
unfoldable pub scan_fields : List Sym → Dict Text (List Sym) → StructProperties → StructProperties
scan_fields public_user [] props = props
scan_fields public_user ((field, users) ∷ fields) props =
    scan_fields public_user fields (add_users field (inter (from_list users) public_user) props)

-- the body of `for m in metas`
unfoldable pub scan_struct : List Sym → Option StructMeta → StructProperties → StructProperties
scan_struct public_user none props = props
scan_struct public_user (some struct) props =
    scan_fields public_user struct.public_fields
      (record props { all_fields = union struct.all_fields props.all_fields })

unfoldable pub scan_structs : List Sym → Text → List Meta → StructProperties → StructProperties
scan_structs public_user struct [] props = props
scan_structs public_user struct (m ∷ metas) props =
    scan_structs public_user struct metas (scan_struct public_user (lookup struct m.struct) props)

abbrev pub no_properties : StructProperties
no_properties = record { all_fields = []; public_fields = []; public_users = [] }

abbrev pub names : Dict Text StructMeta → List Text
names [] = []
names ((name, _) ∷ d) = name ∷ names d

abbrev pub all_names : List Meta → List Text
all_names [] = []
all_names (m ∷ metas) = names m.struct ++ all_names metas

unfoldable pub struct_properties : List Sym → List Meta → Dict Text StructProperties
struct_properties public_user metas =
    map (λ struct. (struct, scan_structs public_user struct metas no_properties))
      (from_list (all_names metas))
