-- ===== src/Storage/Names.antt =====
-- The names of the table files (`sstable_path_with_dir` and `parse_sstable_id` of
-- src/storage/manager.rs), and an open of a directory of named files. A name is its bytes.
pub mod RoundTrip
pub mod Directory
use atlas_kv.Base.{
  List, Option, [], if◌then◌else◌, leb, length, ltb, none, some, suc, zero, ℕ, ◌%◌, ◌&&◌, ◌*◌, ◌++◌,
  ◌+◌, ◌-◌, ◌/◌, ◌==◌, ◌^◌, ◌∷◌,
}
use atlas_kv.BTreeMap.{same_key}
use atlas_kv.Error.{Result, ok, err, io, not_found, ◌>>=◌}
use atlas_kv.Sstable.Reader.{SsTableReader, open_table}
use atlas_kv.Storage.{newest_first, next_id}

-- The decimal digits of a number in front of others, as many as there are rounds. The greatest
-- number of 64 bits has 20.
unfoldable pub decimal : ℕ → ℕ → List ℕ → List ℕ
decimal zero n out = out
decimal (suc rounds) n out =
    let digits = decimal rounds (n / 10) ((b'0' + n % 10) ∷ out) in if n == 0 then out else digits

abbrev pub zeros : ℕ → List ℕ
zeros zero = []
zeros (suc k) = b'0' ∷ zeros k

-- `{:06}`. A zero has no digits of its own, and is six zeros.
unfoldable pub padded : ℕ → List ℕ
unfolding decimal
padded id = let digits = decimal 20 id [] in zeros (6 - length digits) ++ digits

abbrev pub prefix : List ℕ
prefix = b's' ∷ b's' ∷ b't' ∷ b'a' ∷ b'b' ∷ b'l' ∷ b'e' ∷ b'_' ∷ []

abbrev pub extension : List ℕ
extension = b'.' ∷ b's' ∷ b's' ∷ b't' ∷ []

-- `format!("sstable_{:06}.sst", id)`
unfoldable pub sstable_name : ℕ → List ℕ
unfolding padded
sstable_name id = prefix ++ (padded id ++ extension)

unfoldable pub before_last_dot : List ℕ → Option (List ℕ)
before_last_dot [] = none
before_last_dot (c ∷ cs) = elim (before_last_dot cs) [
  | some front ↦ some (c ∷ front)
  | none ↦ if c == b'.' then some [] else none
]

-- `Path::file_stem`: a dot at the front belongs to the stem.
unfoldable pub file_stem : List ℕ → List ℕ
unfolding before_last_dot
file_stem name = elim (before_last_dot name) [ some (c ∷ cs) ↦ c ∷ cs | _ ↦ name ]

unfoldable pub strip_prefix : List ℕ → List ℕ → Option (List ℕ)
strip_prefix [] cs = some cs
strip_prefix (p ∷ ps) [] = none
strip_prefix (p ∷ ps) (c ∷ cs) = let rest = strip_prefix ps cs in if p == c then rest else none

-- `str::parse::<u64>`: digits, with an optional `+` before them, of a number below 2 ^ 64.
unfoldable pub scan : List ℕ → ℕ → Option ℕ
scan [] n = some n
scan (c ∷ cs) n =
    let rest = scan cs (n * 10 + (c - b'0')) in
    if leb b'0' c && leb c b'9' && ltb (n * 10 + (c - b'0')) (2 ^ 64) then rest else none

unfoldable pub parse_digits : List ℕ → Option ℕ
unfolding scan
parse_digits [] = none
parse_digits (c ∷ cs) = scan (c ∷ cs) 0

unfoldable pub parse_u64 : List ℕ → Option ℕ
unfolding parse_digits
parse_u64 [] = none
parse_u64 (c ∷ cs) = if c == b'+' then parse_digits cs else parse_digits (c ∷ cs)

unfoldable pub parse_stem : List ℕ → Option ℕ
unfolding strip_prefix parse_u64
parse_stem stem = elim (strip_prefix prefix stem) [ none ↦ none | some id_str ↦ parse_u64 id_str ]

unfoldable pub parse_sstable_id : List ℕ → Option ℕ
unfolding file_stem parse_stem
parse_sstable_id name = parse_stem (file_stem name)

-- The files of a directory, with their names.
abbrev pub Files : Type 0
Files = List (List ℕ × List ℕ)

unfoldable pub sstable_ids : Files → List ℕ
unfolding parse_sstable_id
sstable_ids [] = []
sstable_ids ((name, bytes) ∷ files) =
    let ids = sstable_ids files in elim (parse_sstable_id name) [ none ↦ ids | some id ↦ id ∷ ids ]

unfoldable pub read_named : List ℕ → Files → Result (List ℕ)
read_named name [] = err (io not_found)
read_named name ((n, bytes) ∷ files) = if same_key name n then ok bytes else read_named name files

unfoldable pub open_readers : Files → List ℕ → Result (List SsTableReader)
unfolding read_named sstable_name
open_readers files [] = ok []
open_readers files (id ∷ ids) = do
  file ← read_named (sstable_name id) files
  reader ← open_table file
  readers ← open_readers files ids
  ok (reader ∷ readers)

-- The readers and the next id of `StorageManager::open`.
unfoldable pub open_named : Files → Result (List SsTableReader × ℕ)
unfolding sstable_ids open_readers
open_named files = do
  let ids = newest_first (sstable_ids files)
  readers ← open_readers files ids
  ok (readers, next_id ids)
