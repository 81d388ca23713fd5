-- ===== src/Backend/Swept.antt =====
-- The transaction of the sweep of fastapi_sqlery/backend.py, maintain_ready_queue: the entries that it
-- leaves.
use sqlery.Prelude.{
  IsIn, take_all, ℕ, ◌≤◌, ◌<◌, ◌≡◌, true, false, not, ◌&&◌, ◌||◌, [], ◌==◌, length, refl, ap, subst,
  arith, Bool-cases, inl, inr, ==_self, ==_iff,
}
use sqlery.Attempts.{open_attempt_exists}
use sqlery.Backend.{Job, ReadyEntry, Db, select_where, is_running}
use sqlery.Backend.Repaired.{
  Same, write_ready_all-Same, write_ready_all-keeps, write_ready_all-has_ready, delete_entries-IsIn,
  has_ready-delete_entries, selected-IsIn, IsIn-select_where,
}
use sqlery.Backend.Repairs.{
  IsMatching, IsRepaired, IsOneTime, write_ready_all-IsMatching, is_entry_live-waiting,
}
use sqlery.Backend.Sweep.{
  is_waiting, has_ready, has_blocked_row, is_lost, write_ready_all, is_entry_live, is_stale,
  lost_jobs, stale_entries, drop_stale, repair,
}
use sqlery.Ready.{is_queued}

module _ (slot limit : ℕ) (s : Db) (in_slots : slot < 3)
    (few_lost : length (select_where (is_lost [] s) s.live) ≤ limit) where
  abbrev restored : Db
  restored = write_ready_all slot (lost_jobs slot [] limit s) s

  lost-IsIn :
      (job : Job) → IsIn job s.live → is_lost [] s job ≡ true → IsIn job (lost_jobs slot [] limit s)
  lost-IsIn job p e =
      rw (take_all limit (select_where (is_lost [] s) s.live) few_lost)
        (IsIn-select_where (is_lost [] s) job s.live p e)

  within_live : (x : Job) → IsIn x (lost_jobs slot [] limit s) → IsIn x s.live
  within_live x p =
      (selected-IsIn (is_lost [] s) x s.live
        (rw (take_all limit (select_where (is_lost [] s) s.live) few_lost) at p)).1

  -- After the insertions, every job that waits has an entry.
  restored-has_entry :
      (job : Job)
      → IsIn job s.live
      → is_waiting s job ≡ true
      → (has_ready job.id restored.ready || has_blocked_row job.id s.blocked) ≡ true
  unfolding is_lost
  restored-has_entry job p w = elim (Bool-cases (has_blocked_row job.id s.blocked)) [
    | inl blocked ↦ ground (arith, blocked)
    | inr free ↦ elim (Bool-cases (has_ready job.id s.ready)) [
      | inl listed ↦
          let kept = write_ready_all-keeps slot job.id (lost_jobs slot [] limit s) s listed in
          ground (arith, kept)
      | inr missing ↦
          let lost : is_lost [] s job ≡ true = rw (is_lost, free, missing) (ground (arith, w)) in
          let idle : is_running job.id s ≡ false = ground (arith, w) in
          let new =
            write_ready_all-has_ready slot (lost_jobs slot [] limit s) s job in_slots
              (lost-IsIn job p lost) idle in
          ground (arith, new)
    ]
  ]

  module _ (alike : IsOneTime s.live) (matching : IsMatching s.live s.ready)
      (few_stale : length (select_where (is_stale [] (λ e. false) restored) restored.ready)
        ≤ limit) where
    same : Same s restored
    same = write_ready_all-Same slot (lost_jobs slot [] limit s) s

    stale-IsIn :
        (e : ReadyEntry)
        → IsIn e (stale_entries slot [] limit (λ x. false) restored)
        → (is_entry_live restored restored.live e ≡ false) × IsIn e restored.ready
    unfolding is_stale
    stale-IsIn e p =
        let q = selected-IsIn (is_stale [] (λ x. false) restored) e restored.ready (
          rw
            (take_all limit (select_where (is_stale [] (λ x. false) restored) restored.ready)
              few_stale)
            at p) in
        (ground (arith, q.0), q.1)

    other_job :
        (job : Job)
        → IsIn job restored.live
        → is_waiting restored job ≡ true
        → (e : ReadyEntry) → IsIn e (stale_entries slot [] limit (λ x. false) restored)
        → (e.job_id == job.id) ≡ false
    other_job job p w e q = elim (Bool-cases (e.job_id == job.id)) [
      | inr other ↦ other
      | inl own ↦
          let stale = stale-IsIn e q in
          let ids : e.job_id ≡ job.id = (==_iff e.job_id job.id).0 own in
          let times =
            write_ready_all-IsMatching slot s.live (lost_jobs slot [] limit s) s alike within_live
              matching job (subst (IsIn job) same.live_same p) e stale.1 ids in
          let alive = is_entry_live-waiting restored restored.live job e p w ids times in
          let dead = stale.0 in absurd (cc)
    ]

    repaired : IsRepaired (drop_stale slot [] limit (λ e. false) restored)
    unfolding is_stale write_ready_all is_entry_live
    repaired = record {
      has_entry = λ job p w.
          let kept =
            has_ready-delete_entries job.id (stale_entries slot [] limit (λ x. false) restored)
              restored.ready (other_job job p w) in
          let before = restored-has_entry job (subst (IsIn job) same.live_same p) (
            subst (λ as_. (is_queued job.status && not (open_attempt_exists job.id as_)) ≡ true)
              same.attempts_same w) in
          let blocked = ap (has_blocked_row job.id) same.blocked_same in
          ground (arith, kept, before, blocked);
      is_live = λ e p.
          let left =
            delete_entries-IsIn (stale_entries slot [] limit (λ x. false) restored) restored.ready e
              p in
          elim (Bool-cases (is_entry_live restored restored.live e)) [
            | inl alive ↦ alive
            | inr dead ↦
                let stale : is_stale [] (λ x. false) restored e ≡ true = rw dead refl in
                let member : IsIn e (stale_entries slot [] limit (λ x. false) restored) =
                  rw
                    (take_all limit
                      (select_where (is_stale [] (λ x. false) restored) restored.ready) few_stale)
                    (IsIn-select_where (is_stale [] (λ x. false) restored) e restored.ready left.0
                      stale) in
                let clash = left.1 e member in
                absurd (ground (arith, clash, ==_self e.slot, ==_self e.job_id))
          ];
    }

-- Whatever entries the tables have lost, and whatever entries of jobs that do not wait they hold: a
-- sweep without a filter, whose pages hold all of them, leaves every waiting job with a ready or a
-- blocked entry and no ready entry of another job. The entries that are there have their job's time of
-- creation, and no entry is locked.
pub repair-IsRepaired :
    (slot limit : ℕ) (s : Db)
    → slot < 3
    → IsOneTime s.live
    → IsMatching s.live s.ready
    → length (select_where (is_lost [] s) s.live) ≤ limit
    → length (
        select_where
          (is_stale [] (λ e. false) (write_ready_all slot (lost_jobs slot [] limit s) s))
          (write_ready_all slot (lost_jobs slot [] limit s) s).ready)
      ≤ limit
    → IsRepaired (repair slot [] limit (λ e. false) s)
unfolding repair
repair-IsRepaired slot limit s in_slots alike matching few_lost few_stale =
    repaired slot limit s in_slots few_lost alike matching few_stale
