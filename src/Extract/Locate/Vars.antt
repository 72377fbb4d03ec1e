-- ===== src/Extract/Locate/Vars.antt =====
-- Which variables are edited: those that the module shares with vmlinux, and the static ones.
use plugsched.Common.{
  Bool, true, false, not, ◌&&◌, ◌||◌, List, [], ◌∷◌, ◌++◌, ◌≡◌, refl, arith, ◌==◌, filter,
}
use plugsched.Common.Sets.{member}
use plugsched.Common.Text.{Text, text_eq}
use mathlib.Core.List.{append-nil, append_assoc}
use plugsched.Extract.Locate.{VarMeta, VarConfig, defined_vars, sort_var, sort_vars, var_location}

-- a variable that the file defines
abbrev pub is_defined : Text → VarMeta → Bool
is_defined src_file var = var.file == src_file && not var.external

-- a variable that vmlinux may see
abbrev pub is_public : VarConfig → VarMeta → Bool
is_public var_config var = var.public || member var.name var_config.extra_public

abbrev pub is_shared : VarConfig → Text → VarMeta → Bool
is_shared var_config src_file var =
    is_defined src_file var
    && (is_public var_config var && not (member var.name var_config.force_private))

abbrev pub is_private : VarConfig → Text → VarMeta → Bool
is_private var_config src_file var = is_defined src_file var && not (is_public var_config var)

defined_vars-filter :
    (src_file : Text) (meta_var : List VarMeta)
    → defined_vars src_file meta_var ≡ filter (is_defined src_file) meta_var
unfolding defined_vars filter
defined_vars-filter src_file [] = refl
defined_vars-filter src_file (var ∷ meta_var) =
    ground (arith, defined_vars-filter src_file meta_var)

sort_vars-defined :
    (var_config : VarConfig) (src_file : Text) (meta_var shared static : List VarMeta)
    → sort_vars var_config
        (defined_vars src_file meta_var)
        (record { shared_var_list = shared; static_var_list = static })
      ≡ record {
        shared_var_list = shared ++ filter (is_shared var_config src_file) meta_var;
        static_var_list = static ++ filter (is_private var_config src_file) meta_var;
      }
unfolding sort_vars sort_var defined_vars filter
sort_vars-defined var_config src_file [] shared static = cc (append-nil shared, append-nil static)
sort_vars-defined var_config src_file (var ∷ meta_var) shared static = ground (
  arith,
  sort_vars-defined var_config src_file meta_var shared static,
  sort_vars-defined var_config src_file meta_var (shared ++ var ∷ []) static,
  sort_vars-defined var_config src_file meta_var shared (static ++ var ∷ []),
  append_assoc shared (var ∷ []) (filter (is_shared var_config src_file) meta_var),
  append_assoc static (var ∷ []) (filter (is_private var_config src_file) meta_var),
)

-- A sidecar shares every variable that its file defines. Any other file shares those of its
-- variables that are public or listed as public and not forced to be private, and keeps for itself
-- exactly those that are neither public nor listed; both lists are in the order of the metadata.
pub var_location_exact :
    (var_config : VarConfig) (src_file : Text) (sdcr_srcs : List Text) (meta_var : List VarMeta)
    → (member src_file sdcr_srcs ≡ true
        → var_location var_config src_file sdcr_srcs meta_var ≡ record {
          shared_var_list = filter (is_defined src_file) meta_var;
          static_var_list = [];
        })
      × (member src_file sdcr_srcs ≡ false
          → var_location var_config src_file sdcr_srcs meta_var ≡ record {
            shared_var_list = filter (is_shared var_config src_file) meta_var;
            static_var_list = filter (is_private var_config src_file) meta_var;
          })
unfolding var_location
var_location_exact var_config src_file sdcr_srcs meta_var = (
  λ h. rw (h, defined_vars-filter src_file meta_var) refl,
  λ h. rw h (sort_vars-defined var_config src_file meta_var [] []),
)
