-- ===== src/Storage/Names/RoundTrip.antt =====
-- Parsing the name that was formatted for a table file (src/storage/manager.rs).
use atlas_kv.Base.{
  All, Bool-cases, List, Option, [], ap, arith, drop, inl, inr, length, ne→==, none, refl, some,
  suc, sym, zero, ℕ, ◌%◌, ◌++◌, ◌+◌, ◌-◌, ◌/◌, ◌<◌, ◌==◌, ◌^◌, ◌∙◌, ◌∷◌, ◌≡◌, ◌≤◌,
}
use atlas_kv.Storage.Names.{
  decimal, zeros, padded, prefix, extension, sstable_name, before_last_dot, file_stem, strip_prefix,
  scan, parse_digits, parse_u64, parse_sstable_id, parse_stem,
}

-- The rounds are enough for the number.
abbrev Enough : ℕ → ℕ → Type 0
Enough zero n = n ≡ 0
Enough (suc rounds) n = Enough rounds (n / 10)

Enough-20 : (n : ℕ) → n < 2 ^ 64 → Enough 20 n
Enough-20 n small = omega arith

scan_digit :
    (n : ℕ) (out : List ℕ) → n < 2 ^ 64 → scan ((b'0' + n % 10) ∷ out) (n / 10) ≡ scan out n
unfolding scan
scan_digit n out small = ground arith

scan-decimal :
    (rounds n : ℕ) (out : List ℕ)
    → Enough rounds n
    → n < 2 ^ 64
    → scan (decimal rounds n out) 0 ≡ scan out n
unfolding decimal
scan-decimal zero n out enough small = ap (scan out) (sym enough)
scan-decimal (suc rounds) n out enough small = ground (
  arith,
  scan-decimal rounds (n / 10) ((b'0' + n % 10) ∷ out) enough (omega arith),
  scan_digit n out small,
)

scan-zeros : (k : ℕ) (cs : List ℕ) → scan (zeros k ++ cs) 0 ≡ scan cs 0
unfolding scan
scan-zeros zero cs = refl
scan-zeros (suc k) cs = ground (arith, scan-zeros k cs)

before_last_dot-append : (cs : List ℕ) → before_last_dot (cs ++ extension) ≡ some cs
unfolding before_last_dot
before_last_dot-append [] = refl
before_last_dot-append (c ∷ cs) = rw (before_last_dot-append cs)

-- Digits only.
abbrev IsDigits : List ℕ → Type 0
IsDigits cs = All (λ c. (b'0' ≤ c) × (c ≤ b'9')) cs

decimal-IsDigits : (rounds n : ℕ) (out : List ℕ) → IsDigits out → IsDigits (decimal rounds n out)
unfolding decimal
decimal-IsDigits zero n out h = h
decimal-IsDigits (suc rounds) n out h = elim (Bool-cases (n == 0)) [
  | inl nothing ↦ rw nothing h
  | inr more ↦ rw more (decimal-IsDigits rounds (n / 10) _ ((omega arith, omega arith), h))
]

zeros-IsDigits : (k : ℕ) (cs : List ℕ) → IsDigits cs → IsDigits (zeros k ++ cs)
zeros-IsDigits zero cs h = h
zeros-IsDigits (suc k) cs h = ((omega arith, omega arith), zeros-IsDigits k cs h)

length-zeros : (k : ℕ) (cs : List ℕ) → length (zeros k ++ cs) ≡ k + length cs
length-zeros zero cs = omega arith
length-zeros (suc k) cs = omega (arith, length-zeros k cs)

parse_u64-digits : (cs : List ℕ) → IsDigits cs → 0 < length cs → parse_u64 cs ≡ scan cs 0
unfolding parse_u64 parse_digits
parse_u64-digits [] h pos = absurd (omega arith)
parse_u64-digits (c ∷ cs) h pos = rw (ne→== c b'+' (λ e. absurd (omega (arith, h.0.0, e))))

parse_u64-padded : (id : ℕ) → id < 2 ^ 64 → parse_u64 (padded id) ≡ some id
unfolding padded
parse_u64-padded id small =
    let digits = decimal 20 id [] in
    parse_u64-digits (zeros (6 - length digits) ++ digits)
      (zeros-IsDigits (6 - length digits) digits (decimal-IsDigits 20 id [] tt))
      (omega (arith, length-zeros (6 - length digits) digits))
    ∙ scan-zeros (6 - length digits) digits
    ∙ scan-decimal 20 id [] (Enough-20 id small) small
    ∙ unfold scan in refl

file_stem-append : (c : ℕ) (cs : List ℕ) → file_stem ((c ∷ cs) ++ extension) ≡ c ∷ cs
unfolding file_stem
file_stem-append c cs =
    go (before_last_dot ((c ∷ cs) ++ extension)) (before_last_dot-append (c ∷ cs))
  where
    go :
        (o : Option (List ℕ))
        → o ≡ some (c ∷ cs)
        → (elim o [ some (d ∷ ds) ↦ d ∷ ds | _ ↦ (c ∷ cs) ++ extension ]) ≡ c ∷ cs
    go none e = cc
    go (some []) e = cc
    go (some (d ∷ ds)) e = ground arith

parse_stem-prefix : (cs : List ℕ) → parse_stem (prefix ++ cs) ≡ parse_u64 cs
unfolding parse_stem strip_prefix
parse_stem-prefix cs = refl

-- The name that is formatted for an id of 64 bits is parsed as that id.
pub parse_sstable_id-sstable_name :
    (id : ℕ) → id < 2 ^ 64 → parse_sstable_id (sstable_name id) ≡ some id
unfolding parse_sstable_id sstable_name
parse_sstable_id-sstable_name id small =
    ap parse_stem (file_stem-append b's' (drop 1 prefix ++ padded id))
    ∙ parse_stem-prefix (padded id)
    ∙ parse_u64-padded id small
