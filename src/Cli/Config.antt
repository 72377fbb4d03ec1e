-- ===== src/Cli/Config.antt =====
-- `get_config_dir` of cli.py: the configuration directory for a kernel release.
pub mod Choice
use plugsched.Common.{
  ℕ, suc, Bool, true, false, Option, none, some, List, [], ◌∷◌, if◌then◌else◌, ◌==◌, nat_eq, leb,
}
use plugsched.Common.Text.{Text}
use plugsched.Common.Order.{text_order, sorted}
use plugsched.Common.Errors.{Result, ok, err, unbound_local, fatal, ◌>>=◌}

-- the loop of `common_prefix_len`; `i` is the index of the next pair, `last` the value of the
-- variable `i`, which is bound by the first round
unfoldable pub compare_from : ℕ → Option ℕ → Text → Text → Option ℕ
compare_from i last (a ∷ s1) (b ∷ s2) =
    let rest = compare_from (suc i) (some i) s1 s2 in if a == b then rest else some i
compare_from i last _ _ = last

abbrev pub or_unbound : Option ℕ → Result ℕ
or_unbound none = err unbound_local
or_unbound (some i) = ok i

unfoldable pub common_prefix_len : Text → Text → Result ℕ
common_prefix_len s1 s2 = or_unbound (compare_from 0 none s1 s2)

-- `max` over pairs of a length and an index, where the index grows
unfoldable pub longest : Text → ℕ → Text → List Text → Result (ℕ × Text)
longest uname_r len chosen [] = ok (len, chosen)
longest uname_r len chosen (t ∷ candidates) = do
  l ← common_prefix_len uname_r t
  longest uname_r (if leb len l then l else len) (if leb len l then t else chosen) candidates

abbrev pub backwards : List Text → List Text → List Text
backwards done [] = done
backwards done (t ∷ ts) = backwards (t ∷ done) ts

-- the candidates from the last in the order to the first
abbrev pub choose : Text → List Text → Result (ℕ × Text)
choose uname_r [] = err fatal
choose uname_r (t ∷ candidates) =
    common_prefix_len uname_r t >>= λ l. longest uname_r l t candidates

-- `candidates` are the names in the directory configs/ that the pattern finds.
unfoldable pub get_config_dir : Text → List Text → Result (ℕ × Text)
get_config_dir uname_r candidates = choose uname_r (backwards [] (sorted candidates))
