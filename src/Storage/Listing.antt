-- ===== src/Storage/Listing.antt =====
-- The order in which the files of a directory are listed, which `StorageManager::open` of
-- src/storage/manager.rs does not rely on: it sorts the ids, and finds a file by its id.
use atlas_kv.Base.{All, List, [], ap, arith, false, map, refl, subst, ℕ, ◌==◌, ◌∙◌, ◌∷◌, ◌≡◌}
use mathlib.Core.List.{Permᴰ}
use atlas_kv.Storage.{Directory, read_file, insert_id, newest_first}

-- The same files in any order.
abbrev pub Lists : Directory → Directory → Type 0
Lists d d' = Permᴰ d d'

abbrev pub Apart : ℕ → Directory → Type 0
Apart id d = All (λ f. (f.0 == id) ≡ false) d

-- No two files have the same id.
abbrev pub IsDistinct : Directory → Type 0
IsDistinct [] = Unit {0}
IsDistinct (f ∷ d) = Apart f.0 d × IsDistinct d

insert_id_comm :
    (a b : ℕ) (ids : List ℕ) → insert_id a (insert_id b ids) ≡ insert_id b (insert_id a ids)
unfolding insert_id
insert_id_comm a b [] = ground arith
insert_id_comm a b (i ∷ ids) = ground (arith, insert_id_comm a b ids)

-- The sort forgets the order of the listing.
pub newest_first-Lists :
    {d d' : Directory}
    → Lists d d'
    → newest_first (map (λ f. f.0) d) ≡ newest_first (map (λ f. f.0) d')
unfolding newest_first
newest_first-Lists Permᴰ.nil = refl
newest_first-Lists (Permᴰ.cons {b = b} e p) =
    rw (ap (λ f. f.0) e) (ap (insert_id b.0) (newest_first-Lists p))
newest_first-Lists (Permᴰ.swap {a' = a'} {b' = b'} {l = l} e e') =
    rw (ap (λ f. f.0) e, ap (λ f. f.0) e')
      (insert_id_comm b'.0 a'.0 (newest_first (map (λ f. f.0) l)))
newest_first-Lists (Permᴰ.trans p q) = newest_first-Lists p ∙ newest_first-Lists q

Apart-Lists : (id : ℕ) {d d' : Directory} → Lists d d' → Apart id d → Apart id d'
Apart-Lists id Permᴰ.nil h = h
Apart-Lists id (Permᴰ.cons e p) (h, hs) =
    (subst (λ f. (f.0 == id) ≡ false) e h, Apart-Lists id p hs)
Apart-Lists id (Permᴰ.swap e e') (h, (h', hs)) =
    (subst (λ f. (f.0 == id) ≡ false) e' h', (subst (λ f. (f.0 == id) ≡ false) e h, hs))
Apart-Lists id (Permᴰ.trans p q) h = Apart-Lists id q (Apart-Lists id p h)

other : (i j : ℕ) → (i == j) ≡ false → (j == i) ≡ false
other i j h = ground arith

IsDistinct-Lists : {d d' : Directory} → Lists d d' → IsDistinct d → IsDistinct d'
IsDistinct-Lists Permᴰ.nil h = h
IsDistinct-Lists (Permᴰ.cons {b = b} {l₂ = d'} e p) (h, hs) =
    (subst (λ f. Apart f.0 d') e (Apart-Lists _ p h), IsDistinct-Lists p hs)
IsDistinct-Lists (Permᴰ.swap {a = a} {b = b} {a' = a'} {l = l} e e') ((h, hs), (hs', rest)) = (
  (
    subst (λ f. (f.0 == a'.0) ≡ false) e (subst (λ f. (a.0 == f.0) ≡ false) e' (other b.0 a.0 h)),
    subst (λ f. Apart f.0 l) e' hs',
  ),
  (subst (λ f. Apart f.0 l) e hs, rest),
)
IsDistinct-Lists (Permᴰ.trans p q) h = IsDistinct-Lists q (IsDistinct-Lists p h)

read_file_swap :
    (id : ℕ) (a b : ℕ × List ℕ) (d : Directory)
    → (b.0 == a.0) ≡ false
    → read_file id (a ∷ b ∷ d) ≡ read_file id (b ∷ a ∷ d)
unfolding read_file
read_file_swap id a b d h = ground arith

-- A file is found by its id wherever it is listed.
pub read_file-Lists :
    (id : ℕ) {d d' : Directory} → Lists d d' → IsDistinct d → read_file id d ≡ read_file id d'
unfolding read_file
read_file-Lists id Permᴰ.nil h = refl
read_file-Lists id (Permᴰ.cons {b = b} e p) (h, hs) = rw (e, read_file-Lists id p hs) refl
read_file-Lists id (Permᴰ.swap {a = a} {b = b} {a' = a'} {l = l} e e') ((h, hs), rest) =
    read_file_swap id a b l h
    ∙ ap (λ f. read_file id (f ∷ a ∷ l)) e'
    ∙ ap (λ f. read_file id (a' ∷ f ∷ l)) e
read_file-Lists id (Permᴰ.trans p q) h =
    read_file-Lists id p h ∙ read_file-Lists id q (IsDistinct-Lists p h)
