-- ===== src/Rotation/Writer.antt =====
-- core/rotation.py, _SequenceProbe and writer_slot: the slot that a writer of the ready table uses.
use sqlery.Prelude.{ℕ, ◌+◌, String, Bool, true, false, none, some, ltb, if◌then◌else◌}
use sqlery.Rotation.{slot_default, slot_for_generation, plan_writer}
use sqlery.Rotation.Store.{ReadyDb}

-- What the process remembers about the generation sequence.
pub record SequenceProbe : Type 0 where
  pub present : Bool
  pub retry_at : ℕ

abbrev pub probe_retry_seconds : ℕ
probe_retry_seconds = 30

-- `exists` is the answer of the database, should it be asked.
unfoldable pub check : SequenceProbe → (now : ℕ) (exists : Bool) → Bool × SequenceProbe
check p now exists = if p.present then (true, p) else if ltb now p.retry_at then (false, p) else (
  exists,
  record { present = exists; retry_at = if exists then p.retry_at else now + probe_retry_seconds },
)

-- The slot read, and whether the shared key is held until the writer's transaction ends.
pub record Write : Type 0 where
  pub slot : ℕ
  pub fenced : Bool
  pub probe : SequenceProbe

unfoldable pub writer_slot :
    SequenceProbe
    → (now : ℕ) (exists : Bool) → ReadyDb
    → (enabled : Bool) (dialect : String) → Write
unfolding check plan_writer slot_for_generation
writer_slot p now exists db enabled dialect =
    let plan = plan_writer enabled dialect true in
    let (found, p') = check p now exists in
    elim plan.slot [
      | some slot ↦ record { slot = slot; fenced = false; probe = p }
      | none ↦
          if found
          then record { slot = slot_for_generation db.generation; fenced = true; probe = p' }
          else record { slot = slot_default; fenced = false; probe = p' }
    ]
