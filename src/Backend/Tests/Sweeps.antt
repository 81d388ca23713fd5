-- ===== src/Backend/Tests/Sweeps.antt =====
-- The sweep at small tables: job 1 has lost its entry, job 2 has one, and the entry of job 7 is stale.
use sqlery.Prelude.{ℕ, ◌≡◌, refl, none, false, [], ◌∷◌, arith, here, there, IsIn, ◌∙◌, sym}
use sqlery.Attempts.{open_attempt_exists}
use sqlery.Backend.{Job, ReadyEntry, Db}
use sqlery.Backend.Release.{write_ready}
use sqlery.Backend.Repairs.{IsRepaired}
use sqlery.Backend.Sweep.{
  repair, has_ready, is_lost, write_ready_all, is_stale, delete_entries, has_blocked_row,
  is_entry_live,
}
use sqlery.Backend.Swept.{repair-IsRepaired}
use sqlery.Backend.Tests.{job}
use sqlery.Backend.Trace.{empty}

abbrev entry : ℕ → ReadyEntry
entry i = record {
  slot = 0;
  job_id = i;
  queue_name = "default";
  priority = 0;
  created_at = 10;
  scheduled_at = none;
}

abbrev worn : Db
worn = record empty { live = job 1 ∷ job 2 ∷ []; ready = entry 7 ∷ entry 2 ∷ [] }

worn_entries : (repair 0 [] 5 (λ e. false) worn).ready ≡ entry 2 ∷ entry 1 ∷ []
unfolding repair delete_entries write_ready_all is_lost open_attempt_exists has_ready
    has_blocked_row write_ready is_stale is_entry_live
worn_entries = refl

worn_times : (x : Job) → IsIn x worn.live → x.created_at ≡ 10
worn_times x here = refl
worn_times x (there here) = refl
worn_times x (there (there p)) = elim p [ ]

entry_times : (e : ReadyEntry) → IsIn e worn.ready → e.created_at ≡ 10
entry_times e here = refl
entry_times e (there here) = refl
entry_times e (there (there p)) = elim p [ ]

repair-IsRepaired_example : IsRepaired (repair 0 [] 5 (λ e. false) worn)
unfolding delete_entries write_ready_all is_lost open_attempt_exists has_ready has_blocked_row
    write_ready is_stale is_entry_live
repair-IsRepaired_example =
    repair-IsRepaired 0 5 worn (omega arith) (λ x y p q e. worn_times x p ∙ sym (worn_times y q))
      (λ x p e q same. entry_times e q ∙ sym (worn_times x p)) (omega arith) (omega arith)
