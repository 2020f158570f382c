-- ===== src/MigrationChunks/Tests.antt =====
-- The chunks of four previews of two table plans, by two.
use mnemex.Base.{ℕ, ◌≡◌, refl, List, [], ◌∷◌, arith, All}
use mnemex.MigrationChunks.Model.{
  Preview, ApplyChunk, chunks_from, cut, table_previews, after_table, planned_chunks,
}
use mnemex.MigrationChunks.Partition.{rows_of, IsChunk, NumberedFrom, planned_chunks-partition}

abbrev row : ℕ → ℕ → Preview
row plan id = record { preview_id = id; table_plan_id = plan }

abbrev four : List Preview
four = row 7 1 ∷ row 7 2 ∷ row 7 3 ∷ row 8 4 ∷ []

abbrev chunk : ℕ → ℕ → List Preview → ApplyChunk
chunk n plan ps = record { sequence = n; table_plan_id = plan; previews = ps }

three_chunks :
    planned_chunks 2 four
    ≡ chunk 1 7 (row 7 1 ∷ row 7 2 ∷ []) ∷ chunk 2 7 (row 7 3 ∷ []) ∷ chunk 3 8 (row 8 4 ∷ []) ∷ []
unfolding planned_chunks chunks_from cut table_previews after_table
three_chunks = refl

planned_chunks-partition_example :
    (rows_of (planned_chunks 2 four) ≡ four)
    × All (IsChunk 2) (planned_chunks 2 four)
    × NumberedFrom 1 (planned_chunks 2 four)
planned_chunks-partition_example = planned_chunks-partition 2 four (omega arith)
