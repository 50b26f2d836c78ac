-- ===== src/Wal/Reader.antt =====
-- src/wal/reader.rs: the log read from its front. The open file is the bytes behind the cursor;
-- `position` is the reader's own count, which the cursor runs ahead of when an entry is refused.
use atlas_kv.Base.{
  Bool, List, Option, [], drop, from_le, if◌then◌else◌, leb, length, ltb, none, slice, some, take,
  ℕ, ◌++◌, ◌+◌,
}
use atlas_kv.Error.{Result, ok, err, io, unexpected_eof}
use atlas_kv.Exec.{Exec, pure, lift, ◌>>=◌, ◌>>◌, modify}
use atlas_kv.Wal.Entry.{WalEntry, Libraries, header_size, deserialize}

pub record WalReader : Type 0 where
  pub file : List ℕ
  pub position : ℕ
  pub file_size : ℕ

-- `WalReader::open` on a file that is there, with these bytes.
abbrev pub open_reader : List ℕ → WalReader
open_reader file = record { file = file; position = 0; file_size = length file }

-- `read_exact` on the file.
unfoldable pub read_exact : ℕ → Exec WalReader (List ℕ)
read_exact n r =
    if leb n (length r.file)
    then (ok (take n r.file), record r { file = drop n r.file })
    else (err (io unexpected_eof), record r { file = [] })

unfoldable pub is_at_eof : WalReader → Bool
is_at_eof r = leb r.file_size r.position

module _ (libs : Libraries) where
  -- Steps 6 to 9, behind the header.
  unfoldable pub read_body : List ℕ → ℕ → Exec WalReader (Option WalEntry)
  read_body header data_len = do
    bytes ← read_exact data_len
    entry ← lift (deserialize libs (header ++ bytes))
    modify (λ r. record r { position = r.position + (header_size + data_len) })
    pure (some entry)

  -- Steps 4 and 5, behind the header: is the whole entry there?
  unfoldable pub read_entry : List ℕ → Exec WalReader (Option WalEntry)
  read_entry header r =
      let data_len = from_le (slice 12 16 header) in
      if ltb r.file_size (r.position + header_size + data_len)
      then (ok none, r)
      else read_body header data_len r

  unfoldable pub next_entry : Exec WalReader (Option WalEntry)
  next_entry r =
      if leb r.file_size r.position
      then (ok none, r)
      else if ltb r.file_size (r.position + header_size)
      then (ok none, r)
      else (do header ← read_exact header_size; read_entry header) r

pub record WalIterator : Type 0 where
  pub reader : WalReader

-- `WalReader::entries`
abbrev pub entries : WalReader → WalIterator
entries r = record { reader = r }

-- `WalIterator::next`, and the arms of its `match`.
abbrev pub item_of : Result (Option WalEntry) → Option (Result WalEntry)
item_of (ok (some entry)) = some (ok entry)
item_of (ok none) = none
item_of (err x) = some (err x)

unfoldable pub next : Libraries → WalIterator → Option (Result WalEntry) × WalIterator
next libs it =
    let (result, r) = next_entry libs it.reader in (item_of result, record { reader = r })
