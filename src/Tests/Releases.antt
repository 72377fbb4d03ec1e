-- ===== src/Tests/Releases.antt =====
-- The theorems about the release of a kernel, the springboard, and the files that the tools exchange.
use plugsched.Common.{false, none, some, List, [], ◌∷◌, ◌++◌, ◌≡◌, refl, ◌↔◌, ◌⊎◌, map, filter}
use plugsched.Common.Sets.{member, add, from_list, union, inter, diff}
use plugsched.Common.Text.{Text, codes, text_eq, starts_with, occurs, is_space}
use plugsched.Common.Dict.{Dict, lookup, get_item}
use plugsched.Common.Errors.{ok, err, key_error, fatal}
use plugsched.Analyze.Meta.{Sym, sym_eq}
use plugsched.Analyze.Output.{extract_function}
use plugsched.Analyze.Output.Reads.{extract_function_reads}
use plugsched.YamlDiff.{yaml_diff}
use plugsched.YamlDiff.Exact.{yaml_diff_refuses}
use plugsched.Cli.Version.{
  strip_of, is_margin, text_before, Release, strip_arches, get_kernel_version, find_old_springboard,
  sources,
}
use plugsched.Cli.Version.Exact.{get_kernel_version_exact}
use plugsched.Tests.Samples.{schedule, pick, helper, output}
use plugsched.Tests.Classes.{fns}

abbrev release : Release
release = record {
  kver = codes "5.10.112";
  major = codes "5.10";
  uname_r = codes "5.10.112-005.x86_64";
  krel = some (codes "005");
}

released :
    get_kernel_version (codes " 5\n") (codes " 10\n") (codes " 112\n") (codes " -005.x86_64\n")
    ≡ ok release
unfolding get_kernel_version strip_of is_space text_before strip_arches starts_with
released = refl

-- Without an architecture, KREL is not set.
no_arch :
    get_kernel_version (codes "5") (codes "10") (codes "112") (codes "-rc1")
    ≡ ok (record release { uname_r = codes "5.10.112-rc1"; krel = none })
unfolding get_kernel_version strip_of is_space text_before strip_arches starts_with
no_arch = refl

no_release : get_kernel_version (codes "5") (codes "10") (codes "112") (codes "\n") ≡ err fatal
unfolding get_kernel_version strip_of is_space
no_release = refl

get_kernel_version_exact_example :
    (release.uname_r ≡ release.kver ++ (codes "-" ++ strip_of is_margin (codes " -005.x86_64\n")))
    × ((krel : Text)
        → release.krel ≡ some krel
        → (arch : Text) × (rest : Text) × ((arch ≡ codes ".x86_64") ⊎ (arch ≡ codes ".aarch64"))
          × (strip_of is_margin (codes " -005.x86_64\n") ≡ krel ++ (arch ++ rest)))
    × ((release.krel ≡ none)
        ↔ (occurs (codes ".x86_64") (strip_of is_margin (codes " -005.x86_64\n")) ≡ false)
          × (occurs (codes ".aarch64") (strip_of is_margin (codes " -005.x86_64\n")) ≡ false))
get_kernel_version_exact_example =
    get_kernel_version_exact (codes " 5\n") (codes " 10\n") (codes " 112\n")
      (codes " -005.x86_64\n") release released

abbrev core_c : List Text
core_c =
    codes "/* a comment */\n"
    ∷ codes "__attribute__((optimize(\"no-omit-frame-pointer\")))\n"
    ∷ codes "static void __schedule(bool preempt)\n"
    ∷ []

found : find_old_springboard core_c ≡ false
unfolding find_old_springboard occurs starts_with
found = refl

objects :
    (sources
      (codes "k/core.c" ∷ codes "k/sched.h" ∷ [])
      ((codes "f", codes "k/cpu.c") ∷ [])).mod_objs
    ≡ codes "k/core.c.extract" ∷ codes "k/sched.h.extract" ∷ codes "k/cpu.c.extract" ∷ []
unfolding sources
objects = refl

abbrev old_yaml : Dict Text (List Sym)
old_yaml = (codes "outsider", schedule ∷ helper ∷ []) ∷ []

abbrev new_yaml : Dict Text (List Sym)
new_yaml = (codes "outsider", helper ∷ pick ∷ []) ∷ []

diffs : yaml_diff old_yaml new_yaml ≡ ok (schedule ∷ pick ∷ [])
unfolding yaml_diff get_item lookup from_list union inter diff filter member add sym_eq text_eq
diffs = refl

-- what boundary.yaml holds
abbrev function : Dict Text (List Sym)
function = (codes "interface", schedule ∷ []) ∷ []

abbrev same : Sym → Sym
same s = s

extract_function_reads_example :
    (get_item (codes "init") (extract_function same fns output.classes function)
      ≡ ok (map same fns.init))
    × (get_item (codes "sched_outsider") (extract_function same fns output.classes function)
        ≡ ok (map same output.classes.sched_outsider))
    × (get_item (codes "sdcr_out") (extract_function same fns output.classes function)
        ≡ ok (map same output.classes.sdcr_out))
    × (get_item (codes "callback") (extract_function same fns output.classes function)
        ≡ ok (map same output.classes.callback))
    × (get_item (codes "interface") (extract_function same fns output.classes function)
        ≡ ok (map same fns.interface))
    × (get_item (codes "outsider_opt") (extract_function same fns output.classes function)
        ≡ ok (map same output.classes.outsider_opt))
extract_function_reads_example = extract_function_reads same fns output.classes function

no_outsider : lookup (codes "outsider") function ≡ none
unfolding lookup text_eq
no_outsider = refl

yaml_diff_refuses_example :
    yaml_diff (extract_function same fns output.classes function) new_yaml ≡ err key_error
yaml_diff_refuses_example = yaml_diff_refuses same fns output.classes function new_yaml no_outsider
