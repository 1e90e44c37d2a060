-- ===== src/Metering/Dlq.antt =====
-- The dead-letter queue (src/metering/dlq.ts): a file of entries that is only appended to. The text of
-- the error is left out.
use platform_core.Base.{ℕ, List, [], ◌∷◌, ◌++◌, length}
use platform_core.Metering.Types.{IdEvent}

pub record DlqEntry : Type 0 where
  pub event : IdEvent
  pub dlq_timestamp : ℕ
  pub dlq_retries : ℕ

unfoldable pub append : IdEvent → ℕ → ℕ → List DlqEntry → List DlqEntry
append e now retries q = q ++ record { event = e; dlq_timestamp = now; dlq_retries = retries } ∷ []

unfoldable pub count : List DlqEntry → ℕ
count q = length q

abbrev pub dead_ids : List DlqEntry → List ℕ
dead_ids [] = []
dead_ids (d ∷ q) = d.event.id ∷ dead_ids q
