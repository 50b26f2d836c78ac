-- ===== src/Engine/Opening.antt =====
-- The calls of `Engine::open` (src/engine.rs) on its directories and on the log file.
use atlas_kv.Base.{List, Option, Option-cases, inl, inr, none, refl, some, ℕ, ◌≡◌}
use mathlib.Core.Option
use atlas_kv.Error.{Result, ok, err, IoKind, Result-cases}
use atlas_kv.Storage.{StorageManager, Directory, open_storage}
use atlas_kv.Wal.Entry.{Libraries}
use atlas_kv.Config.{Config}
use atlas_kv.Engine.{Engine}
use atlas_kv.Engine.Open.{
  OpenEnv, open_log_file, read_log_file, with_storage, open_with, open_engine,
}

open_log_file-ok :
    (fault : Option IoKind) (r : Option (Result Engine)) (e : Engine)
    → Option.map (open_log_file fault) r ≡ some (ok e)
    → (fault ≡ none) × (r ≡ some (ok e))
unfolding open_log_file
open_log_file-ok none none e h = cc h
open_log_file-ok none (some r) e h = (refl, h)
open_log_file-ok (some k) none e h = cc h
open_log_file-ok (some k) (some (ok x)) e h = cc h
open_log_file-ok (some k) (some (err x)) e h = cc h

module _ (libs : Libraries) (env : OpenEnv) (config : Config) where
  read_log_file-ok :
      (log : Option (List ℕ)) (r : Result StorageManager) (e : Engine)
      → read_log_file libs env config log r ≡ some (ok e)
      → with_storage libs env.flushing config log r ≡ some (ok e)
  unfolding read_log_file
  read_log_file-ok none r e h = h
  read_log_file-ok (some file) (err x) e h = h
  read_log_file-ok (some file) (ok s) e h = elim (Option-cases env.read_log) [
    | inl calm ↦ rw calm at h
    | inr (k, fault) ↦ cc (rw fault at h)
  ]

  -- An open that returns an engine had its directories and its log file, and is the open that the
  -- calls on them do not stop.
  pub open_with-ok :
      (directory : Directory) (log : Option (List ℕ)) (e : Engine)
      → open_with libs env config directory log ≡ some (ok e)
      → (env.create_dirs ≡ none)
        × (env.open_log ≡ none)
        × (open_engine libs env.flushing config directory log ≡ some (ok e))
  unfolding open_with open_engine
  open_with-ok directory log e h = elim (Option-cases env.create_dirs) [
    | inr (k, fault) ↦ cc (rw fault at h)
    | inl calm ↦
        let (opened, done) = open_log_file-ok env.open_log _ e (rw calm at h) in
        (calm, opened, read_log_file-ok log (open_storage directory) e done)
  ]

  open_log_file-none : (r : Option (Result Engine)) → Option.map (open_log_file none) r ≡ r
  unfolding open_log_file
  open_log_file-none none = refl
  open_log_file-none (some (ok e)) = refl
  open_log_file-none (some (err x)) = refl

  -- Where these calls succeed, they change nothing.
  pub open_with-calm :
      (directory : Directory) (log : Option (List ℕ))
      → env.create_dirs ≡ none
      → env.read_log ≡ none
      → env.open_log ≡ none
      → open_with libs env config directory log ≡ open_engine libs env.flushing config directory log
  unfolding open_with read_log_file open_engine with_storage
  open_with-calm directory none dirs readable writable = rw (dirs, writable) (open_log_file-none _)
  open_with-calm directory (some file) dirs readable writable =
      elim (Result-cases (open_storage directory)) [
        | inl (s, opened) ↦ rw (dirs, writable, opened, readable) (open_log_file-none _)
        | inr (x, failed) ↦ rw (dirs, writable, failed) (open_log_file-none _)
      ]
