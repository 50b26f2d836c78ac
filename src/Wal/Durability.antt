-- ===== src/Wal/Durability.antt =====
-- What the writer (src/wal/writer.rs) has logged, and how much of it survives a crash.
use atlas_kv.Base.{
  Bool, Bool-cases, List, Option, Option-cases, [], ap, append-nil, append_assoc, arith, drop,
  false, inl, inr, leb, length, length-append, ltb, none, refl, some, sym, take, take-append-drop,
  take-append_le, take_all, ℕ, ◌++◌, ◌+◌, ◌∙◌, ◌∷◌, ◌≡◌, ◌≤◌,
}
use atlas_kv.Error.{Result-cases, ok, IoKind}
use atlas_kv.Wal.Writer.{
  WalEnv, LogFile, buffer_capacity, write_through, flush_buffer, put_bytes, make_room, write_all,
  WalWriter, sync, on_disk, after_crash,
}

-- The log: what is in the file, and behind it what is in the buffer.
abbrev pub logged : LogFile → List ℕ
logged f = f.content ++ f.buffer

empty_of_length : (xs : List ℕ) → length xs ≡ 0 → xs ≡ []
empty_of_length [] h = refl
empty_of_length (x ∷ xs) h = absurd (omega arith)

flush_buffer-logged :
    (fault : Option (IoKind × ℕ)) (f : LogFile)
    → (logged (flush_buffer fault f).1 ≡ logged f)
      × ((flush_buffer fault f).1.durable ≡ f.durable)
      × (length f.content ≤ length (flush_buffer fault f).1.content)
unfolding flush_buffer
flush_buffer-logged none f =
    (append-nil (f.content ++ f.buffer), refl, omega (arith, length-append f.content f.buffer))
flush_buffer-logged (some (e, n)) f = (
  append_assoc f.content (take n f.buffer) (drop n f.buffer)
      ∙ ap (λ t. f.content ++ t) (take-append-drop n f.buffer),
  refl,
  omega (arith, length-append f.content (take n f.buffer)),
)

flush_buffer-ok :
    (fault : Option (IoKind × ℕ)) (f : LogFile)
    → (flush_buffer fault f).0 ≡ ok tt
    → (flush_buffer fault f).1.buffer ≡ []
unfolding flush_buffer
flush_buffer-ok none f h = refl
flush_buffer-ok (some (e, n)) f h = cc

-- The file `f` became `f'` by logging `bytes`; nothing was made durable.
pub record Logs (bytes : List ℕ) (f f' : LogFile) : Type 0 where
  pub log : logged f' ≡ logged f ++ bytes
  pub durable : f'.durable ≡ f.durable
  pub grows : length f.content ≤ length f'.content

buffer-Logs :
    (bytes : List ℕ) (f : LogFile) → Logs bytes f (record f { buffer = f.buffer ++ bytes })
buffer-Logs bytes f = record {
  log = sym (append_assoc f.content f.buffer bytes);
  durable = refl;
  grows = omega arith;
}

direct-Logs :
    (bytes : List ℕ) (f : LogFile)
    → f.buffer ≡ []
    → Logs bytes f (record f { content = f.content ++ bytes })
direct-Logs bytes f h = record {
  log = simp (h, append-nil);
  durable = refl;
  grows = omega (arith, length-append f.content bytes);
}

write_through-Logs :
    (fault : Option (IoKind × ℕ)) (bytes : List ℕ) (f : LogFile)
    → f.buffer ≡ []
    → (write_through fault bytes f).0 ≡ ok tt
    → Logs bytes f (write_through fault bytes f).1
unfolding write_through
write_through-Logs none bytes f e h = direct-Logs bytes f e
write_through-Logs (some (x, n)) bytes f e h = cc

put_bytes-Logs :
    (env : WalEnv) (bytes : List ℕ) (f : LogFile)
    → (buffer_capacity ≤ length bytes → f.buffer ≡ [])
    → (put_bytes env bytes f).0 ≡ ok tt
    → Logs bytes f (put_bytes env bytes f).1
unfolding put_bytes
put_bytes-Logs env bytes f e h = elim (Bool-cases (leb buffer_capacity (length bytes))) [
  | inl large ↦ rw large (write_through-Logs env.direct bytes f (e (ground arith)) (rw large at h))
  | inr small ↦ rw small (buffer-Logs bytes f)
]

Logs-trans : {f g h : LogFile} {bytes : List ℕ} → Logs [] f g → Logs bytes g h → Logs bytes f h
Logs-trans {f} {bytes = bytes} first second = record {
  log = second.log ∙ ap (λ l. l ++ bytes) (first.log ∙ append-nil (logged f));
  durable = second.durable ∙ first.durable;
  grows = omega arith;
}

make_room-Logs : (env : WalEnv) (n : ℕ) (f : LogFile) → Logs [] f (make_room env n f).1
unfolding make_room
make_room-Logs env n f = elim (Bool-cases (ltb buffer_capacity (n + length f.buffer))) [
  | inl full ↦ rw full (
      let (log, durable, grows) = flush_buffer-logged env.spill f in
      record { log = log ∙ sym (append-nil (logged f)); durable = durable; grows = grows })
  | inr room ↦
      rw room (record { log = sym (append-nil (logged f)); durable = refl; grows = omega arith })
]

make_room-empty :
    (env : WalEnv) (n : ℕ) (f : LogFile)
    → (make_room env n f).0 ≡ ok tt
    → buffer_capacity ≤ n
    → (make_room env n f).1.buffer ≡ []
unfolding make_room
make_room-empty env n f h large = elim (Bool-cases (ltb buffer_capacity (n + length f.buffer))) [
  | inl full ↦ rw full (flush_buffer-ok env.spill f (rw full at h))
  | inr room ↦ rw room (empty_of_length f.buffer (ground arith))
]

-- A write that succeeds logs its bytes.
pub write_all-Logs :
    (env : WalEnv) (bytes : List ℕ) (f : LogFile)
    → (write_all env bytes f).0 ≡ ok tt
    → Logs bytes f (write_all env bytes f).1
unfolding write_all
write_all-Logs env bytes f h =
    elim (Bool-cases (ltb (length bytes + length f.buffer) buffer_capacity)) [
      | inl fits ↦ rw fits (buffer-Logs bytes f)
      | inr large ↦ elim (Result-cases (make_room env (length bytes) f).0) [
        | inl (u, e) ↦
            rw (large, e)
              (Logs-trans (make_room-Logs env (length bytes) f) (
                put_bytes-Logs env bytes (make_room env (length bytes) f).1
                  (make_room-empty env (length bytes) f e) (rw (large, e) at h)))
        | inr (x, e) ↦ cc (rw (large, e) at h)
      ]
    ]

-- What a method of the writer leaves where it succeeds in syncing: all of the log is in the file
-- and durable, and nothing is uncommitted.
pub record Synced (w w' : WalWriter) : Type 0 where
  pub log : logged w'.file ≡ logged w.file
  pub empty : w'.file.buffer ≡ []
  pub durable : w'.file.durable ≡ length w'.file.content
  pub settled : w'.file.stale ≡ none
  pub committed : w'.uncommitted_count ≡ 0
  pub lsn : w'.current_lsn ≡ w.current_lsn
  pub strategy : w'.sync_strategy ≡ w.sync_strategy

-- A sync that succeeds leaves the log as it was, all of it in the file and durable, and nothing
-- uncommitted.
pub sync-Synced : (env : WalEnv) (w : WalWriter) → (sync env w).0 ≡ ok tt → Synced w (sync env w).1
unfolding sync flush_buffer
sync-Synced env w h = ground (arith, append-nil (w.file.content ++ w.file.buffer))

-- A step that logs leaves what is durable as it was.
pub on_disk-Logs :
    {bytes : List ℕ} (f f' : LogFile)
    → f.durable ≤ length f.content
    → Logs bytes f f'
    → on_disk f' ≡ on_disk f
unfolding on_disk
on_disk-Logs {bytes} f f' le logs = rw logs.durable (
    sym (take-append_le f.durable f'.content f'.buffer (omega (arith, logs.grows)))
    ∙ ap (take f.durable) (logs.log ∙ append_assoc f.content f.buffer bytes)
    ∙ take-append_le f.durable f.content (f.buffer ++ bytes) le)

-- A truncation that is not synced has reached the disk.
abbrev pub KeepsTruncation : Bool → LogFile → Type 0
KeepsTruncation late f = (old : List ℕ) → f.stale ≡ some old → late ≡ false

pub after_crash-on_disk :
    (late : Bool) (f : LogFile) → KeepsTruncation late f → after_crash late f ≡ on_disk f
unfolding after_crash
after_crash-on_disk late f keeps = elim (Bool-cases late) [
  | inr kept ↦ rw kept refl
  | inl lost ↦ elim (Option-cases f.stale) [
    | inl settled ↦ rw (lost, settled) refl
    | inr (old, there) ↦ cc (lost, keeps old there)
  ]
]

-- After a sync that succeeds all of the log is durable.
pub on_disk-Synced : {w w' : WalWriter} → Synced w w' → on_disk w'.file ≡ logged w.file
unfolding on_disk
on_disk-Synced {w} {w'} s = rw s.durable (
    take_all (length w'.file.content) w'.file.content (omega arith)
    ∙ sym (append-nil w'.file.content)
    ∙ ap (λ b. w'.file.content ++ b) (sym s.empty)
    ∙ s.log)
