-- ===== src/MigrationChunks/Model.antt =====
-- The partition of the ordered row previews into chunks: the runs of one table plan, cut into pieces of
-- at most the chunk size, numbered from 1. The digest of a chunk is left out.
use mnemex.Base.{ℕ, zero, suc, ◌+◌, List, [], ◌∷◌, ◌++◌, ◌==◌, if◌then◌else◌, take, drop, length}

-- A row preview, by its key and that of its table plan.
pub record Preview : Type 0 where
  pub preview_id : ℕ
  pub table_plan_id : ℕ

pub record ApplyChunk : Type 0 where
  pub sequence : ℕ
  pub table_plan_id : ℕ
  pub previews : List Preview

-- `previews[offset:end]`: the longest run of one table plan at the start.
unfoldable pub table_previews : ℕ → List Preview → List Preview
table_previews plan [] = []
table_previews plan (p ∷ ps) =
    let rest = table_previews plan ps in if p.table_plan_id == plan then p ∷ rest else []

-- What follows that run.
unfoldable pub after_table : ℕ → List Preview → List Preview
after_table plan [] = []
after_table plan (p ∷ ps) =
    let rest = after_table plan ps in if p.table_plan_id == plan then rest else p ∷ ps

-- `range(0, len(table_previews), chunk_size)`, on fuel: one chunk for each step of the range.
unfoldable pub cut : ℕ → ℕ → ℕ → ℕ → List Preview → List ApplyChunk
cut zero chunk_size sequence plan ps = []
cut (suc fuel) chunk_size sequence plan [] = []
cut (suc fuel) chunk_size sequence plan (p ∷ ps) =
    record { sequence = sequence; table_plan_id = plan; previews = take chunk_size (p ∷ ps) }
    ∷ cut fuel chunk_size (suc sequence) plan (drop chunk_size (p ∷ ps))

-- The loop over the table plans, on fuel.
unfoldable pub chunks_from : ℕ → ℕ → ℕ → List Preview → List ApplyChunk
unfolding table_previews after_table cut
chunks_from zero chunk_size sequence ps = []
chunks_from (suc fuel) chunk_size sequence [] = []
chunks_from (suc fuel) chunk_size sequence (p ∷ ps) =
    let table = table_previews p.table_plan_id (p ∷ ps) in
    let made = cut (length table) chunk_size sequence p.table_plan_id table in
    made
    ++ chunks_from fuel chunk_size (sequence + length made) (after_table p.table_plan_id (p ∷ ps))

unfoldable pub planned_chunks : ℕ → List Preview → List ApplyChunk
unfolding chunks_from
planned_chunks chunk_size ps = chunks_from (length ps) chunk_size 1 ps
