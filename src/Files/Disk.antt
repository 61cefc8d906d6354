-- ===== src/Files/Disk.antt =====
-- services/file_service/src/FileServiceImpl.{h,cpp}. `entries` are the files below the storage
-- root, by path. `disk_faults` has an entry for each file that is opened, written to or closed, and
-- for each that `Delete` removes: what goes wrong there, and how many bytes reach the disk then; past
-- its end nothing goes wrong. Reading an open file does not fail, nor does the removal of one that
-- `Upload` gives up. `random` are the values that `dist(rng)`
-- yields, and `drawn` counts those used. An upload stays below 2^63 bytes.
use wizz_mania.Prelude.{
  ℕ, zero, suc, ◌+◌, ◌%◌, ◌==◌, Bool, true, false, List, [], ◌∷◌, ◌++◌, take, get_elem?, Option,
  none, some, if◌then◌else◌,
}
use wizz_mania.Prelude.Text.{Str, codes}
use wizz_mania.Prelude.Maps.{Map, lookup, assign, erase}
use wizz_mania.Prelude.Int.{ℤ}
use wizz_mania.Sql.{next_event, later_events}

pub record StoredFile : Type 0 where
  pub file_id : Str
  pub conversation_id : Str
  pub owner_id : Str
  pub file_name : Str
  pub media_type : Str
  pub size_bytes : ℕ
  pub created_at_epoch : ℕ
  pub file_path : Str
  pub deleted : Bool

pub record FileService : Type 0 where
  pub storage_root : Str
  pub files : Map StoredFile
  pub entries : Map Str
  pub disk_faults : List (Option ℕ)
  pub random : ℕ → ℕ
  pub drawn : ℕ
  pub now : ℕ

-- The messages of files.proto. `FileMetadata` is a `StoredFile` without its path.
pub record UploadChunk : Type 0 where
  pub conversation_id : Str
  pub owner_id : Str
  pub file_name : Str
  pub media_type : Str
  pub cipher_chunk : Str
  pub last_chunk : Bool
  pub declared_size : ℤ

pub record UploadAck : Type 0 where
  pub file_id : Str
  pub stored_size : ℕ

pub record DownloadChunk : Type 0 where
  pub cipher_chunk : Str
  pub last_chunk : Bool

pub record FileRequest : Type 0 where
  pub file_id : Str
  pub requester_id : Str

pub record FileMetadata : Type 0 where
  pub file_id : Str
  pub conversation_id : Str
  pub owner_id : Str
  pub file_name : Str
  pub media_type : Str
  pub size_bytes : ℕ
  pub created_at_epoch : ℕ
  pub deleted : Bool

abbrev pub stream_chunk_size : ℕ
stream_chunk_size = 65536

-- `kAlphabet[i]`
unfoldable pub hex_digit : ℕ → ℕ
hex_digit i = elim (get_elem? (codes "0123456789abcdef") i) [ none ↦ 0 | some c ↦ c ]

-- `n` digits from the `k`-th value on.
unfoldable pub hex_digits : (ℕ → ℕ) → ℕ → ℕ → Str
unfolding hex_digit
hex_digits random k zero = []
hex_digits random k (suc n) = hex_digit (random k % 16) ∷ hex_digits random (suc k) n

unfoldable pub generate_file_id : FileService → Str × FileService
unfolding hex_digits
generate_file_id s =
    (codes "file_" ++ hex_digits s.random s.drawn 32, record s { drawn = s.drawn + 32 })

-- `operator/` of two paths, the second one relative.
unfoldable pub join_path : Str → Str → Str
join_path [] name = name
join_path (c ∷ []) name = if c == b'/' then c ∷ name else c ∷ b'/' ∷ name
join_path (c ∷ d ∷ root) name = c ∷ join_path (d ∷ root) name

unfoldable pub make_file_path : FileService → Str → Str
unfolding join_path
make_file_path s file_id = join_path s.storage_root (file_id ++ codes ".bin")

unfoldable pub to_proto : StoredFile → FileMetadata
to_proto file = record {
  file_id = file.file_id;
  conversation_id = file.conversation_id;
  owner_id = file.owner_id;
  file_name = file.file_name;
  media_type = file.media_type;
  size_bytes = file.size_bytes;
  created_at_epoch = file.created_at_epoch;
  deleted = file.deleted;
}

abbrev pub content : Str → FileService → Str
content path s = elim (lookup path s.entries) [ none ↦ [] | some bytes ↦ bytes ]

-- `output.open(path, std::ios::binary)`, which empties the file, and whether it is open.
unfoldable pub open_output : Str → FileService → Bool × FileService
open_output path s =
    let s' = record s { disk_faults = later_events s.disk_faults } in
    elim (next_event s.disk_faults) [
      | none ↦ (true, record s' { entries = assign path [] s.entries })
      | some n ↦ (false, s')
    ]

-- `output.write(…)`, and whether the stream is still good.
unfoldable pub write_output : Str → Str → FileService → Bool × FileService
write_output path bytes s =
    let s' = record s { disk_faults = later_events s.disk_faults } in
    let put : Str → FileService =
      λ b. record s' { entries = assign path (content path s ++ b) s.entries } in
    elim (next_event s.disk_faults) [
      | none ↦ (true, put bytes)
      | some n ↦ (false, put (take n bytes))
    ]

-- `output.close()`, which may fail to write what is buffered: the code does not ask.
unfoldable pub close_output : Str → FileService → FileService
close_output path s =
    let s' = record s { disk_faults = later_events s.disk_faults } in
    elim (next_event s.disk_faults) [
      | none ↦ s'
      | some n ↦ record s' { entries = assign path (take n (content path s)) s.entries }
    ]

-- `std::filesystem::remove(path, ec)` in `Delete`, which does not ask whether it failed.
unfoldable pub try_remove : Str → FileService → FileService
try_remove path s = record s {
  disk_faults = later_events s.disk_faults;
  entries = elim (next_event s.disk_faults) [ none ↦ erase path s.entries | some n ↦ s.entries ];
}

-- `std::filesystem::remove(path)` in `Upload`.
abbrev pub remove_file : Str → FileService → FileService
remove_file path s = record s { entries = erase path s.entries }
