-- ===== src/Metering/Repository.antt =====
-- The table of events (src/metering/meter-event-repository.ts), whose primary key is the id.
use platform_core.Base.{
  ℕ, Bool, Option, none, some, List, [], ◌∷◌, ◌++◌, includes, if◌then◌else◌, nat_eq,
}
use platform_core.Metering.Types.{IdEvent, MeterEventInsert, insert_of}

abbrev pub row_ids : List MeterEventInsert → List ℕ
row_ids [] = []
row_ids (r ∷ rs) = r.id ∷ row_ids rs

unfoldable pub exists_by_id : ℕ → List MeterEventInsert → Bool
exists_by_id i rows = includes (row_ids rows) i

-- A transaction, `none` where an id is taken: no row is inserted then.
unfoldable pub insert_batch : List IdEvent → List MeterEventInsert → Option (List MeterEventInsert)
unfolding exists_by_id
insert_batch [] rows = some rows
insert_batch (e ∷ es) rows =
    if exists_by_id e.id rows then none else insert_batch es (rows ++ insert_of e ∷ [])
