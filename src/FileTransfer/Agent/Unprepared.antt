-- ===== src/FileTransfer/Agent/Unprepared.antt =====
-- A PUT of files that cannot be compressed (lib/file_transfer_agent/file_transfer_agent.js).
use snowflake_connector_node.Prelude.{ℕ, suc, ◌≡◌, true, none, some, List, [], ◌∷◌}
use snowflake_connector_node.Prelude.Int.{pos}
use snowflake_connector_node.FileTransfer.Metadata.{Failure, FileMeta}
use snowflake_connector_node.FileTransfer.Agent.{PutRow}

-- The metadata that an attempt leaves which fails before it asks the storage.
abbrev pub unprepared : Failure → FileMeta → FileMeta
unprepared e m = record m {
  real_src_file_path = m.src_file_path;
  dst_file_size = some (pos 0);
  result_status = none;
  error_details =
      some (record { failure = e; file = m.src_file_name; real_file = m.src_file_path });
}

-- A file that is to be compressed and has no status.
abbrev pub IsUnprepared : FileMeta → Type 0
IsUnprepared m = (m.require_compress ≡ true) × (m.result_status ≡ none)

-- The rows of files of which none could be compressed.
abbrev pub all_unprepared : (ℕ → Failure) → ℕ → List FileMeta → List FileMeta
all_unprepared e k [] = []
all_unprepared e k (m ∷ ms) = unprepared (e k) m ∷ all_unprepared e (suc k) ms

-- A row for each file in order, none of which has a status.
abbrev pub IsWithoutStatus : List FileMeta → List PutRow → Type 0
IsWithoutStatus [] [] = Unit
IsWithoutStatus [] (r ∷ rs) = ⊥
IsWithoutStatus (m ∷ ms) [] = ⊥
IsWithoutStatus (m ∷ ms) (r ∷ rs) =
    (r.source ≡ m.src_file_name) × (r.status ≡ none) × IsWithoutStatus ms rs
