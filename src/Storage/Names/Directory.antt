-- ===== src/Storage/Names/Directory.antt =====
-- A directory of named files beside the directory of their ids (src/storage/manager.rs).
use atlas_kv.Base.{
  All, Bool-cases, List, [], ap, arith, false, inl, inr, leb, map, refl, some, sym, true, ℕ, ◌<◌,
  ◌==◌, ◌^◌, ◌∙◌, ◌∷◌, ◌≡◌, ◌≢◌,
}
use atlas_kv.BTreeMap.{same_key}
use atlas_kv.BTreeMap.Laws.{same_key_refl, eq_of_same_key}
use atlas_kv.Error.{Result, ok, err, ◌>>=◌}
use atlas_kv.Storage.{
  Directory, StorageManager, read_file, open_all, newest_first, insert_id, next_id, open_storage,
  SsTableReader,
}
use atlas_kv.Storage.Names.{
  Files, sstable_name, parse_sstable_id, sstable_ids, read_named, open_readers, open_named,
}
use atlas_kv.Storage.Names.RoundTrip.{parse_sstable_id-sstable_name}

abbrev pub named : Directory → Files
named d = map (λ f. (sstable_name f.0, f.1)) d

-- Ids of 64 bits.
abbrev pub AreU64 : List ℕ → Type 0
AreU64 ids = All (λ id. id < 2 ^ 64) ids

==→eq : (a b : ℕ) → (a == b) ≡ true → a ≡ b
==→eq a b h = ground arith

==→ne : (a b : ℕ) → (a == b) ≡ false → a ≢ b
==→ne a b h = ground arith

sstable_name-injective :
    (i j : ℕ) → i < 2 ^ 64 → j < 2 ^ 64 → sstable_name i ≡ sstable_name j → i ≡ j
sstable_name-injective i j si sj e = some_injective (
    sym (parse_sstable_id-sstable_name i si)
    ∙ ap parse_sstable_id e
    ∙ parse_sstable_id-sstable_name j sj)
  where
    some_injective : some i ≡ some j → i ≡ j
    some_injective h = ground arith

same_name :
    (i j : ℕ) → i < 2 ^ 64 → j < 2 ^ 64 → same_key (sstable_name i) (sstable_name j) ≡ (j == i)
same_name i j si sj = elim (Bool-cases (j == i)) [
  | inl same ↦
      ap (λ k. same_key (sstable_name i) (sstable_name k)) (==→eq j i same)
      ∙ same_key_refl (sstable_name i)
      ∙ sym same
  | inr other ↦ elim (Bool-cases (same_key (sstable_name i) (sstable_name j))) [
    | inr differ ↦ differ ∙ sym other
    | inl same ↦
        let e =
          sstable_name-injective i j si sj
            (eq_of_same_key (sstable_name i) (sstable_name j) same) in
        absurd (omega (arith, ==→ne j i other, e))
  ]
]

sstable_ids-cons :
    (name bytes : List ℕ) (id : ℕ) (files : Files)
    → parse_sstable_id name ≡ some id
    → sstable_ids ((name, bytes) ∷ files) ≡ id ∷ sstable_ids files
unfolding sstable_ids
sstable_ids-cons name bytes id files h = ground (arith, h)

sstable_ids-named :
    (d : Directory) → AreU64 (map (λ f. f.0) d) → sstable_ids (named d) ≡ map (λ f. f.0) d
unfolding sstable_ids
sstable_ids-named [] small = refl
sstable_ids-named ((id, bytes) ∷ d) (h, small) =
    sstable_ids-cons (sstable_name id) bytes id (named d) (parse_sstable_id-sstable_name id h)
    ∙ ap (λ ids. id ∷ ids) (sstable_ids-named d small)

read_named-named :
    (id : ℕ) (d : Directory)
    → id < 2 ^ 64
    → AreU64 (map (λ f. f.0) d)
    → read_named (sstable_name id) (named d) ≡ read_file id d
unfolding read_named read_file
read_named-named id [] small h = refl
read_named-named id ((i, bytes) ∷ d) small (hi, h) =
    rw (same_name id i small hi, read_named-named id d small h)

insert_id-AreU64 : (id : ℕ) (ids : List ℕ) → id < 2 ^ 64 → AreU64 ids → AreU64 (insert_id id ids)
unfolding insert_id
insert_id-AreU64 id [] h hs = (h, tt)
insert_id-AreU64 id (i ∷ ids) h (hi, hs) = elim (Bool-cases (leb i id)) [
  | inl le ↦ rw le (h, (hi, hs))
  | inr gt ↦ rw gt (hi, insert_id-AreU64 id ids h hs)
]

newest_first-AreU64 : (ids : List ℕ) → AreU64 ids → AreU64 (newest_first ids)
unfolding newest_first
newest_first-AreU64 [] h = tt
newest_first-AreU64 (id ∷ ids) (h, hs) =
    insert_id-AreU64 id (newest_first ids) h (newest_first-AreU64 ids hs)

open_readers-named :
    (d : Directory) (ids : List ℕ)
    → AreU64 (map (λ f. f.0) d)
    → AreU64 ids
    → open_readers (named d) ids ≡ open_all d ids
unfolding open_readers open_all
open_readers-named d [] h hs = refl
open_readers-named d (id ∷ ids) h (hid, hs) =
    rw (read_named-named id d hid h, open_readers-named d ids h hs)

-- What a manager has of an open.
abbrev pub readers_of : Result StorageManager → Result (List SsTableReader × ℕ)
readers_of (ok s) = ok (s.sstables, s.next_sstable_id)
readers_of (err x) = err x

-- A directory of files that are named by their ids, of 64 bits, is opened by its names as it is by
-- the ids: to the same readers and the same next id, or with the same error.
pub open_named-named :
    (d : Directory) → AreU64 (map (λ f. f.0) d) → open_named (named d) ≡ readers_of (open_storage d)
unfolding open_named open_storage
open_named-named d h =
    let ids = newest_first (map (λ f. f.0) d) in
    ap
      (λ found. do
        let found_ids = newest_first found
        readers ← open_readers (named d) found_ids
        ok (readers, next_id found_ids))
      (sstable_ids-named d h)
    ∙ ap (λ r. do readers ← r; ok (readers, next_id ids))
        (open_readers-named d ids h (newest_first-AreU64 (map (λ f. f.0) d) h))
    ∙ go (open_all d ids)
  where
    go :
        (r : Result (List SsTableReader))
        → (do readers ← r; ok (readers, next_id (newest_first (map (λ f. f.0) d))))
          ≡ readers_of (do
            readers ← r
            ok (record {
              directory = d;
              sstables = readers;
              next_sstable_id = next_id (newest_first (map (λ f. f.0) d));
            }))
    go (ok readers) = refl
    go (err x) = refl
