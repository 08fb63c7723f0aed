-- ===== src/Tests/Deliveries.antt =====
-- Deliveries to the consumers.
use synthy.Prelude.{String, ◌≡◌, refl, ◌⊎◌, none, some}
use synthy.Exec.{Error, Result}
use synthy.Model.{CodeChunk}
use synthy.Db.Rows.{get_chunk_by_id}
use synthy.World.{World}
use synthy.Consumers.{ChunkDelivery, handle_embedding, handle_summary}
use synthy.Consumers.Settled.{Rejects, Panics, Handled, handle_embedding-Handled}
use synthy.Consumers.Summary.{Summarised, handle_summary-Summarised}
use synthy.Tests.Fixtures.{quiet, no_index, indexed}

abbrev for_chunk : String → ChunkDelivery
for_chunk id = record { tag = 4; chunk_id = id; repository_id = "r" }

abbrev outcome : Result (Unit {0}) × World
outcome = handle_embedding no_index (for_chunk "c1") indexed

handle_embedding-Handled_example :
    (((f : Error) × (no_index.db_fault indexed.tick ≡ some f)) × Rejects 4 indexed outcome)
    ⊎ ((no_index.db_fault indexed.tick ≡ none)
        × (get_chunk_by_id "c1" indexed.db ≡ none)
        × Panics indexed outcome)
    ⊎ ((no_index.db_fault indexed.tick ≡ none)
        × ((chunk : CodeChunk) × (get_chunk_by_id "c1" indexed.db ≡ some chunk)
            × Handled no_index 4 chunk indexed outcome))
handle_embedding-Handled_example =
    handle_embedding-Handled no_index (for_chunk "c1") indexed (λ t. refl)

-- A chunk that is gone.
abbrev missed : Result (Unit {0}) × World
missed = handle_summary quiet (for_chunk "c9") indexed

handle_summary-Summarised_example :
    (((f : Error) × (quiet.db_fault indexed.tick ≡ some f)) × Rejects 4 indexed missed)
    ⊎ ((quiet.db_fault indexed.tick ≡ none)
        × (get_chunk_by_id "c9" indexed.db ≡ none)
        × Panics indexed missed)
    ⊎ ((quiet.db_fault indexed.tick ≡ none)
        × ((chunk : CodeChunk) × (get_chunk_by_id "c9" indexed.db ≡ some chunk)
            × Summarised quiet 4 chunk indexed missed))
handle_summary-Summarised_example =
    handle_summary-Summarised quiet (for_chunk "c9") indexed (λ t. refl)
