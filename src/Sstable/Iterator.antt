-- ===== src/Sstable/Iterator.antt =====
-- A table read from its first entry to its last (src/storage/sstable/iterator.rs).
use atlas_kv.Base.{
  IsU32, List, Option, [], ap, append_assoc, arith, drop-append, from_le, from_le-to_le, length,
  length-append, le→leb, le→ltb, map, ne→==, none, refl, slice, some, suc, take, take-append, to_le,
  zero, ℕ, ◌++◌, ◌+◌, ◌-◌, ◌<◌, ◌∙◌, ◌∷◌, ◌≡◌, ◌≤◌,
}
use atlas_kv.BTreeMap.{BTreeMap}
use atlas_kv.Error.{Result, ok}
use atlas_kv.MemTable.{MemTableEntry, value, tombstone}
use atlas_kv.Sstable.Format.{header_size, entry_bytes, value_bytes, val_len, tombstone_marker}
use atlas_kv.Sstable.Builder.{index_block, footer_bytes}
use atlas_kv.Sstable.Reader.{SsTableIterator, iter, next_item, next}
use atlas_kv.Sstable.Written.{
  payload, data_block, index_from, record_size, length-entry_bytes, length-data_block,
}
use atlas_kv.Sstable.Lookup.{EntryFits, AllFit, key_fits, val_len_tombstone, behind_key}
use atlas_kv.Sstable.Opened.{CanHold, reader_of}

abbrev pub Item : Type 0
Item = Result (List ℕ × Option (List ℕ))

-- What a `for` loop over the iterator sees, in so many rounds.
abbrev pub collect : ℕ → SsTableIterator → List Item
collect zero it = []
collect (suc rounds) it =
    let (item, it') = next it in elim item [ none ↦ [] | some x ↦ x ∷ collect rounds it' ]

module _ (key : List ℕ) (entry : MemTableEntry) (rest : List ℕ) where
  item_len :
      IsU32 (length key) → from_le (take 4 (entry_bytes key (payload entry) ++ rest)) ≡ length key
  unfolding entry_bytes to_le
  item_len h = from_le-to_le 4 (length key) h

  item_value_len :
      IsU32 (val_len (payload entry))
      → from_le (slice 4 8 (entry_bytes key (payload entry) ++ rest)) ≡ val_len (payload entry)
  unfolding entry_bytes to_le
  item_value_len h = from_le-to_le 4 (val_len (payload entry)) h

  item_key : slice 8 (8 + length key) (entry_bytes key (payload entry) ++ rest) ≡ key
  unfolding entry_bytes to_le
  item_key =
      ap (λ t. take (8 + length key - 8) t) (append_assoc key (value_bytes (payload entry)) rest)
      ∙ take-append (8 + length key - 8) key (value_bytes (payload entry) ++ rest) (omega arith)

-- An entry at the front of what is left is the next item.
next_item-entry :
    (key : List ℕ) (entry : MemTableEntry) (rest : List ℕ) (end_offset at : ℕ)
    → EntryFits key entry
    → next_item (record {
      rest = entry_bytes key (payload entry) ++ rest;
      end_offset = end_offset;
      current_offset = at;
    })
      ≡ (
        ok (key, payload entry),
        record {
          rest = rest;
          end_offset = end_offset;
          current_offset = at + record_size key entry;
        },
      )
unfolding next_item
next_item-entry key (value v) rest end_offset at f =
    let here = entry_bytes key (some v) ++ rest in
    let long : 8 + length key ≤ length here =
      omega
        (arith, length-append (entry_bytes key (some v)) rest, length-entry_bytes key (value v)) in
    rw
      (
        item_len key (value v) rest (key_fits key (value v) f),
        item_value_len key (value v) rest (val_len_tombstone key (value v) f),
        item_key key (value v) rest,
        behind_key key (value v) rest,
        le→ltb (length here) (8 + length key) long,
        ne→== (length v) tombstone_marker (λ e. absurd (omega (arith, f.1, e))),
      )
      (ground (
        arith,
        length-append v rest,
        take-append (length v) v rest refl,
        drop-append (length v) v rest refl,
      ))
next_item-entry key tombstone rest end_offset at f =
    let here = entry_bytes key none ++ rest in
    let long : 8 + length key ≤ length here =
      omega (arith, length-append (entry_bytes key none) rest, length-entry_bytes key tombstone) in
    rw
      (
        item_len key tombstone rest f,
        item_value_len key tombstone rest (val_len_tombstone key tombstone f),
        item_key key tombstone rest,
        behind_key key tombstone rest,
        le→ltb (length here) (8 + length key) long,
      )
      (ground arith)

next-entry :
    (key : List ℕ) (entry : MemTableEntry) (rest : List ℕ) (end_offset at : ℕ)
    → EntryFits key entry
    → at < end_offset
    → next (record {
      rest = entry_bytes key (payload entry) ++ rest;
      end_offset = end_offset;
      current_offset = at;
    })
      ≡ (
        some (ok (key, payload entry)),
        record {
          rest = rest;
          end_offset = end_offset;
          current_offset = at + record_size key entry;
        },
      )
unfolding next
next-entry key entry rest end_offset at f before =
    ground (arith, next_item-entry key entry rest end_offset at f)

-- The iterator in front of these entries, with the rest of the file behind them.
abbrev standing : BTreeMap MemTableEntry → List ℕ → ℕ → SsTableIterator
standing es tail at = record {
  rest = data_block es ++ tail;
  end_offset = at + length (data_block es);
  current_offset = at;
}

collect_step :
    (rounds : ℕ) (it it' : SsTableIterator) (x : Item)
    → next it ≡ (some x, it')
    → collect (suc rounds) it ≡ x ∷ collect rounds it'
collect_step rounds it it' x h = ground (arith, h)

collect-entries :
    (es : BTreeMap MemTableEntry) (tail : List ℕ) (at : ℕ)
    → AllFit es
    → collect (suc (length es)) (standing es tail at) ≡ map (λ e. ok (e.0, payload e.1)) es
collect-entries [] tail at fits = unfold next in rw (le→leb (at + 0) at (omega arith), collect)
collect-entries ((key, entry) ∷ es) tail at (f, fits) =
    let here = entry_bytes key (payload entry) in
    let rest = data_block es ++ tail in
    let n = length-data_block key entry es in
    let grouped : (here ++ data_block es) ++ tail ≡ here ++ rest =
      append_assoc here (data_block es) tail in
    let behind : at + length (data_block ((key, entry) ∷ es))
        ≡ at + record_size key entry + length (data_block es) =
      omega arith in
    ap
      (λ bytes. collect (suc (suc (length es))) (record {
        rest = bytes;
        end_offset = at + length (data_block ((key, entry) ∷ es));
        current_offset = at;
      }))
      grouped
    ∙ collect_step (suc (length es)) _ _ (ok (key, payload entry)) (
        next-entry key entry rest (at + length (data_block ((key, entry) ∷ es))) at f (omega arith))
    ∙ ap
        (λ end_offset.
          ok (key, payload entry)
          ∷ collect (suc (length es)) (record {
            rest = rest;
            end_offset = end_offset;
            current_offset = at + record_size key entry;
          }))
        behind
    ∙ ap (λ items. ok (key, payload entry) ∷ items)
        (collect-entries es tail (at + record_size key entry) fits)

-- The iterator of the reader of a built file, of entries that the format can hold, returns exactly
-- these entries in their order, a tombstone as a key without a value, and then ends.
pub collect-reader_of :
    (crc32 : List ℕ → ℕ) (es : BTreeMap MemTableEntry)
    → CanHold es
    → collect (suc (length es)) (iter (reader_of crc32 es)) ≡ map (λ e. ok (e.0, payload e.1)) es
unfolding iter to_le
collect-reader_of crc32 es can =
    let tail =
      index_block (index_from header_size es)
      ++ footer_bytes (header_size + length (data_block es)) (crc32 (data_block es)) in
    collect-entries es tail header_size can.each
