-- ===== src/Tests/Command.antt =====
-- The theorems about the configuration directory, on the release 5.10.112 and three directories.
use plugsched.Common.{ℕ, suc, List, [], ◌∷◌, ◌≡◌, refl, ◌⊎◌, ◌<◌, length}
use plugsched.Common.Text.{Text, codes, text_eq}
use plugsched.Common.Order.{text_le, text_order, insert_sorted, sorted}
use plugsched.Common.Errors.{ok, err, unbound_local}
use plugsched.Cli.Config.{compare_from, common_prefix_len, longest, get_config_dir}
use plugsched.Cli.Config.Choice.{shared, common_prefix_len_exact}

abbrev uname_r : Text
uname_r = codes "5.10.112-005"

abbrev candidates : List Text
candidates = codes "5.10" ∷ codes "5.10.111" ∷ codes "5.10.112" ∷ []

common_prefix_len_exact_example :
    ((shared uname_r (codes "5.10.112") < length uname_r)
      → (shared uname_r (codes "5.10.112") < length (codes "5.10.112"))
      → common_prefix_len uname_r (codes "5.10.112") ≡ ok (shared uname_r (codes "5.10.112")))
    × ((n : ℕ)
        → shared uname_r (codes "5.10.112") ≡ suc n
        → (shared uname_r (codes "5.10.112") ≡ length uname_r)
          ⊎ (shared uname_r (codes "5.10.112") ≡ length (codes "5.10.112"))
        → common_prefix_len uname_r (codes "5.10.112") ≡ ok n)
    × ((uname_r ≡ []) ⊎ (codes "5.10.112" ≡ [])
        → common_prefix_len uname_r (codes "5.10.112") ≡ err unbound_local)
common_prefix_len_exact_example = common_prefix_len_exact uname_r (codes "5.10.112")

-- The directory of the release itself counts 7, as does its neighbour, which comes later in the
-- descending order and is taken.
chosen : get_config_dir uname_r candidates ≡ ok (7, codes "5.10.111")
unfolding get_config_dir sorted insert_sorted text_order text_le longest common_prefix_len
    compare_from
chosen = refl
