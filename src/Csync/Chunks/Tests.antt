-- ===== src/Csync/Chunks/Tests.antt =====
-- Chunks of a small file.
use das_protokoll.Base.{◌≡◌, some, arith}
use das_protokoll.Csync.Chunks.{ChunkInfo, index_field_size}
use das_protokoll.Csync.Chunks.Sizes.{Cuts, index_field_size-Cuts}

index_field_size_example :
    (info : ChunkInfo) × (index_field_size 400000 ≡ some info) × Cuts 400000 info
index_field_size_example = index_field_size-Cuts 400000 (omega arith)
