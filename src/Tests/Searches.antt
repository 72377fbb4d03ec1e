-- ===== src/Tests/Searches.antt =====
-- The theorems about the three searches of boundary/analyze.py, on small call graphs.
use plugsched.Common.{
  ℕ, Bool, true, false, List, [], ◌∷◌, ◌≡◌, ◌≢◌, refl, ◌↔◌, some, none, arith, inl, inr, ◌<◌, ◌==◌,
  if◌then◌else◌,
}
use plugsched.Common.Sets.{member, Within}
use plugsched.Common.Sets.Laws.{member-cons, member-nil}
use plugsched.Common.Text.{Text, codes, text_eq}
use plugsched.Common.Dict.{Dict, lookup}
use plugsched.Common.Errors.{ok}
use plugsched.Analyze.Meta.{Sym, sym_eq, Edge, MetaEdge}
use plugsched.Analyze.Inflect.{inflect}
use plugsched.Analyze.Inflect.Escapes.{Escapes, IsClosed}
use plugsched.Analyze.Inflect.Exact.{inflect_exact, inflect_greatest}
use plugsched.Analyze.Sidecar.{boundary_file, sidecar_inflect}
use plugsched.Analyze.Sidecar.Needed.{Needed}
use plugsched.Analyze.Sidecar.Exact.{sidecar_inflect_exact}
use plugsched.Analyze.Redirect.{CallerClass, check_redirect_mangled}
use plugsched.Analyze.Redirect.Unsafe.{Call, IsOptimised, Unsafe, direct, through}
use plugsched.Analyze.Redirect.Verdict.{
  check_redirect_mangled_exact, check_redirect_mangled_ends, check_redirect_mangled_diverges,
}
use plugsched.Tests.Samples.{schedule, pick, leaf, helper, kick, aux, program}
use mathlib.Core.Option.{some-injective}
use mathlib.Core.List.{Memᴰ}
use mathlib.Core.List.Memᴰ

-- `helper`, outside, calls `leaf`
abbrev calls : List Edge
calls =
    record { from = schedule; to = pick }
    ∷ record { from = pick; to = leaf }
    ∷ record { from = helper; to = leaf }
    ∷ []

inflect_exact_example :
    (r : List Sym) × (inflect (schedule ∷ []) (pick ∷ leaf ∷ []) calls ≡ ok r)
    × ((s : Sym)
        → (member s r ≡ true) ↔ (
            (member s (pick ∷ leaf ∷ []) ≡ true)
            × ¬ Escapes (schedule ∷ []) (pick ∷ leaf ∷ []) calls s))
    × IsClosed (schedule ∷ []) calls r
inflect_exact_example = inflect_exact (schedule ∷ []) (pick ∷ leaf ∷ []) calls

left_inside : inflect (schedule ∷ []) (pick ∷ leaf ∷ []) calls ≡ ok (pick ∷ [])
unfolding program
left_inside = refl

pick-Within : Within (pick ∷ []) (pick ∷ leaf ∷ [])
pick-Within s h =
    ground (arith, member-cons s pick [], member-cons s pick (leaf ∷ []), member-nil s)

schedule_in : member schedule (schedule ∷ []) ≡ true
unfolding program
schedule_in = refl

leaf_out : member leaf (pick ∷ []) ≡ false
unfolding program
leaf_out = refl

pick-IsClosed : IsClosed (schedule ∷ []) calls (pick ∷ [])
pick-IsClosed edge (Memᴰ.head same) h = rw same (inr schedule_in)
pick-IsClosed edge (Memᴰ.tail (Memᴰ.head same)) h = absurd (cc (leaf_out, rw same at h))
pick-IsClosed edge (Memᴰ.tail (Memᴰ.tail (Memᴰ.head same))) h = absurd (cc (leaf_out, rw same at h))
pick-IsClosed edge (Memᴰ.tail (Memᴰ.tail (Memᴰ.tail m))) h = absurd (Memᴰ.not-nil m)

inflect_greatest_example : Within (pick ∷ []) (pick ∷ [])
inflect_greatest_example =
    inflect_greatest (schedule ∷ []) (pick ∷ leaf ∷ []) calls (pick ∷ []) (pick ∷ []) left_inside
      pick-Within pick-IsClosed

-- `kick` calls `aux` of its file, of which vmlinux holds no copy
abbrev kick_edges : List MetaEdge
kick_edges = record { from = kick; to = some aux } ∷ record { from = kick; to = none } ∷ []

abbrev kick_metas : Dict Text (List MetaEdge)
kick_metas = (codes "lib/kick.c.boundary", kick_edges) ∷ []

kick_only : (s : Sym) → member s (kick ∷ []) ≡ true → s ≡ kick
unfolding member
kick_only s h = ground (arith, sym_eq.beq_iff s kick)

kick_files : lookup (boundary_file kick) kick_metas ≡ some kick_edges
unfolding program
kick_files = refl

sidecar_inflect_exact_example :
    (leftover : List Sym) × (sidecar_inflect kick_metas (kick ∷ []) (kick ∷ []) ≡ ok leftover)
    × ((s : Sym) → (member s leftover ≡ true) ↔ ∥ Needed kick_metas (kick ∷ []) (kick ∷ []) s ∥₁)
sidecar_inflect_exact_example =
    sidecar_inflect_exact kick_metas (kick ∷ []) (kick ∷ []) (λ s h. h)
      (λ s m. rw (kick_only s m) (kick_edges, kick_files))

both_left : sidecar_inflect kick_metas (kick ∷ []) (kick ∷ []) ≡ ok (aux ∷ kick ∷ [])
unfolding program
both_left = refl

kick_in : member kick (kick ∷ []) ≡ true
unfolding program
kick_in = refl

kick_out : member kick (aux ∷ []) ≡ false
unfolding program
kick_out = refl

-- `helper`, an outsider, calls `pick`, which was optimised away and calls `schedule`
abbrev outsiders : CallerClass
outsiders = record {
  sched_outsider = helper ∷ [];
  mangled = schedule ∷ [];
  in_vmlinux = schedule ∷ helper ∷ [];
}

abbrev chain : List MetaEdge
chain = record { from = pick; to = some schedule } ∷ record { from = helper; to = some pick } ∷ []

found : check_redirect_mangled outsiders chain 2 schedule ≡ ok true
unfolding program
found = refl

check_redirect_mangled_exact_example : (true ≡ true) ↔ ∥ Unsafe outsiders chain schedule ∥₁
check_redirect_mangled_exact_example =
    check_redirect_mangled_exact outsiders chain 2 schedule true found

abbrev rank : Sym → ℕ
rank s = if s == schedule then 2 else if s == pick then 1 else 0

ranks : (rank pick < rank schedule) × (rank helper < rank pick)
unfolding program
ranks = (omega arith, omega arith)

rank_falls :
    (edge : MetaEdge) (f : Sym)
    → Call outsiders chain edge f
    → IsOptimised outsiders chain edge.from
    → rank edge.from < rank f
rank_falls edge f call optimised = elim (Memᴰ.cases_cons call.known) [
  | inl same ↦
      let callee : schedule ≡ f = some-injective schedule f (rw same at call.callee) in
      rw (same, ← callee) ranks.0
  | inr later ↦ elim (Memᴰ.cases_cons later) [
    | inl same ↦
        let callee : pick ≡ f = some-injective pick f (rw same at call.callee) in
        rw (same, ← callee) ranks.1
    | inr none_left ↦ absurd (Memᴰ.not-nil none_left)
  ]
]

check_redirect_mangled_ends_example :
    (b : Bool) × (check_redirect_mangled outsiders chain 3 schedule ≡ ok b)
unfolding sym_eq
check_redirect_mangled_ends_example =
    check_redirect_mangled_ends outsiders chain rank rank_falls 3 schedule (omega arith)

-- `schedule` was copied under a mangled name and calls itself
abbrev recursive : List MetaEdge
recursive = record { from = schedule; to = some schedule } ∷ []

abbrev lone : CallerClass
lone = record { sched_outsider = helper ∷ []; mangled = schedule ∷ []; in_vmlinux = schedule ∷ [] }

schedule_only : (s : Sym) → member s (schedule ∷ []) ≡ true → s ≡ schedule
unfolding member
schedule_only s h = ground (arith, sym_eq.beq_iff s schedule)

schedule_apart : member schedule lone.sched_outsider ≡ false
unfolding program
schedule_apart = refl

self-Call : Call lone recursive (record { from = schedule; to = some schedule }) schedule
self-Call = record { known = Memᴰ.head refl; callee = refl; same_file = refl }

-- the only caller is `schedule` itself
schedule_safe : (f : Sym) → ¬ Unsafe lone recursive f
schedule_safe f (direct edge call out) = elim (Memᴰ.cases_cons call.known) [
  | inl same ↦ cc (schedule_apart, rw same at out)
  | inr none_left ↦ absurd (Memᴰ.not-nil none_left)
]
schedule_safe f (through edge call optimised p) = schedule_safe edge.from p

check_redirect_mangled_diverges_example :
    check_redirect_mangled lone recursive 1000 schedule ≢ ok false
check_redirect_mangled_diverges_example =
    check_redirect_mangled_diverges lone recursive (schedule ∷ [])
      (λ f m.
        rw (schedule_only f m)
          (record { from = schedule; to = some schedule }, self-Call, inl schedule_in, schedule_in))
      (λ f m. schedule_safe f) 1000 schedule false schedule_in
