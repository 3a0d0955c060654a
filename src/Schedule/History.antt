-- ===== src/Schedule/History.antt =====
-- The history of a schedule: no run is listed twice, and the garbage collection keeps what it should.
use kagents.Prelude.{
  ◌≡◌, refl, ap, inl, inr, ℕ, zero, suc, String, false, List, [], ◌∷◌, ◌++◌, ◌==◌, ◌||◌, eq_iff,
  arith, Bool-cases, if◌then◌else◌,
}
use kagents.Api.Status.{Time}
use kagents.Api.Resources.{ScheduledRunStatus}
use kagents.Schedule.{is_run_terminal, has_run, record_run, terminal_runs, compact}

abbrev pub drop_runs_of : ℕ → List ScheduledRunStatus → List ScheduledRunStatus
drop_runs_of zero runs = runs
drop_runs_of (suc n) [] = []
drop_runs_of (suc n) (rs ∷ runs) = drop_runs_of n runs

-- The runs that may still go on.
pub live_runs : List ScheduledRunStatus → List ScheduledRunStatus
live_runs [] = []
live_runs (rs ∷ runs) = if is_run_terminal rs.phase then live_runs runs else rs ∷ live_runs runs

-- The compaction keeps every run that is not terminal, in order, and of the terminal ones all but the
-- oldest, as many as it is told to drop.
pub compact_exact :
    (excess : ℕ) (runs : List ScheduledRunStatus)
    → (live_runs (compact excess runs) ≡ live_runs runs)
      × (terminal_runs (compact excess runs) ≡ drop_runs_of excess (terminal_runs runs))
unfolding compact live_runs terminal_runs
compact_exact zero runs = (refl, refl)
compact_exact (suc excess) [] = (refl, refl)
compact_exact (suc excess) (rs ∷ runs) = elim (Bool-cases (is_run_terminal rs.phase)) [
  | inl t ↦ rw t (compact_exact excess runs)
  | inr f ↦
      let (live, terminal) = compact_exact (suc excess) runs in
      rw f (rw f (ap (λ l. rs ∷ l) live, terminal))
]

-- No two entries have one name.
abbrev pub IsDistinct : List ScheduledRunStatus → Type 0
IsDistinct [] = Unit
IsDistinct (rs ∷ runs) = (has_run rs.name runs ≡ false) × IsDistinct runs

pub has_run-snoc :
    (name : String) (runs : List ScheduledRunStatus) (rs : ScheduledRunStatus)
    → has_run name (runs ++ rs ∷ []) ≡ has_run name runs || rs.name == name
has_run-snoc name [] rs = ground arith
has_run-snoc name (r ∷ runs) rs = ground (arith, has_run-snoc name runs rs)

IsDistinct-snoc :
    (runs : List ScheduledRunStatus) (rs : ScheduledRunStatus)
    → IsDistinct runs
    → has_run rs.name runs ≡ false
    → IsDistinct (runs ++ rs ∷ [])
IsDistinct-snoc [] rs d h = (refl, tt)
IsDistinct-snoc (r ∷ runs) rs d h = (
  ground (arith, has_run-snoc r.name runs rs, eq_iff r.name rs.name, eq_iff rs.name r.name),
  IsDistinct-snoc runs rs d.1 (ground arith),
)

pub record_run-IsDistinct :
    (name : String) (at : Time) (runs : List ScheduledRunStatus)
    → IsDistinct runs
    → IsDistinct (record_run name at runs)
unfolding record_run
record_run-IsDistinct name at runs d = elim (Bool-cases (has_run name runs)) [
  | inl h ↦ rw h d
  | inr h ↦ rw h (IsDistinct-snoc runs _ d h)
]

has_run-compact :
    (name : String) (excess : ℕ) (runs : List ScheduledRunStatus)
    → has_run name runs ≡ false
    → has_run name (compact excess runs) ≡ false
unfolding compact
has_run-compact name zero runs h = h
has_run-compact name (suc excess) [] h = h
has_run-compact name (suc excess) (rs ∷ runs) h =
    ground (arith, has_run-compact name excess runs, has_run-compact name (suc excess) runs)

pub compact-IsDistinct :
    (excess : ℕ) (runs : List ScheduledRunStatus)
    → IsDistinct runs
    → IsDistinct (compact excess runs)
unfolding compact
compact-IsDistinct zero runs d = d
compact-IsDistinct (suc excess) [] d = d
compact-IsDistinct (suc excess) (rs ∷ runs) d = elim (Bool-cases (is_run_terminal rs.phase)) [
  | inl t ↦ rw t (compact-IsDistinct excess runs d.1)
  | inr f ↦
      rw f (has_run-compact rs.name (suc excess) runs d.0, compact-IsDistinct (suc excess) runs d.1)
]
