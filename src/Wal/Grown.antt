-- ===== src/Wal/Grown.antt =====
-- The bytes of a log with one more entry (`serialize` of src/wal/entry.rs).
use atlas_kv.Base.{
  All, List, Option-cases, [], ap, append-nil, append_assoc, arith, inl, inr, some, sym, ℕ, ◌++◌,
  ◌∙◌, ◌∷◌, ◌≡◌,
}
use atlas_kv.Error.{ok}
use atlas_kv.Wal.Entry.{WalEntry, Libraries, layout, serialize}
use atlas_kv.Wal.Frames
use atlas_kv.Wal.Replay.{log_bytes}

module _ (libs : Libraries) where
  pub serialize-data :
      (entry : WalEntry) (bytes : List ℕ)
      → serialize libs entry ≡ ok bytes
      → (payload : List ℕ) × (libs.bincode_serialize entry ≡ some payload)
        × (bytes ≡ layout libs entry.lsn payload)
  unfolding serialize
  serialize-data entry bytes h = elim (Option-cases (libs.bincode_serialize entry)) [
    | inl absent ↦ cc (rw absent at h)
    | inr (payload, there) ↦ (payload, there, ground (arith, rw there at h))
  ]

  pub log_bytes-append :
      (es : List (WalEntry × List ℕ)) (entry : WalEntry) (payload : List ℕ)
      → log_bytes libs (es ++ ((entry, payload) ∷ []))
        ≡ log_bytes libs es ++ layout libs entry.lsn payload
  log_bytes-append [] entry payload = append-nil (layout libs entry.lsn payload)
  log_bytes-append ((e, bytes) ∷ es) entry payload =
      ap (λ l. layout libs e.lsn bytes ++ l) (log_bytes-append es entry payload)
      ∙ sym (
          append_assoc (layout libs e.lsn bytes) (log_bytes libs es)
            (layout libs entry.lsn payload))

  pub written-append :
      (es : List (WalEntry × List ℕ)) (e : WalEntry × List ℕ)
      → All (Frames.Written libs) es
      → Frames.Written libs e
      → All (Frames.Written libs) (es ++ (e ∷ []))
  written-append [] e ws w = (w, tt)
  written-append (d ∷ es) e (w', ws) w = (w', written-append es e ws w)
