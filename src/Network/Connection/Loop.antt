-- ===== src/Network/Connection/Loop.antt =====
-- The rounds of the loop of `Connection::handle` (src/network/connection.rs).
use atlas_kv.Base.{
  Bool-cases, List, Option-cases, ap, arith, from_be32, if◌then◌else◌, inl, inr, length,
  length-drop, ltb, none, refl, slice, some, subst, suc, sym, zero, ℕ, ◌++◌, ◌<◌, ◌≡◌, ◌≤◌,
}
use atlas_kv.Error.{AtlasError, Result, ok, err, Result-cases}
use atlas_kv.Protocol.Command.{Command}
use atlas_kv.Protocol.Codec.{header_size}
use atlas_kv.Protocol.Stream.{Reader, read_exact, read_payload, read_command}
use atlas_kv.Wal.Entry.{Libraries}
use atlas_kv.Exec.{Exec, bind-ok, fail, lift, ◌>>=◌}
use atlas_kv.Error.{protocol, payload_too_large}
use atlas_kv.Protocol.Codec.{max_payload_size, decode_command}
use atlas_kv.Network.Connection.{
  ends_reading, Connection, Turn, round, respond, on_read_error, handle,
}

read_exact-le : (n : ℕ) (r : Reader) → length (read_exact n r).1.bytes ≤ length r.bytes
unfolding read_exact
read_exact-le n r = ground (arith, length-drop n r.bytes)

read_payload-le : (n : ℕ) (r : Reader) → length (read_payload n r).1.bytes ≤ length r.bytes
unfolding read_payload
read_payload-le n r = ground (arith, read_exact-le n r)

read_exact-lt :
    (n : ℕ) (r : Reader) (bytes : List ℕ)
    → 0 < n
    → (read_exact n r).0 ≡ ok bytes
    → length (read_exact n r).1.bytes < length r.bytes
unfolding read_exact
read_exact-lt n r bytes pos h = ground (arith, length-drop n r.bytes)

-- Behind the header: the payload and its decoding.
payload_part : List ℕ → Exec Reader Command
payload_part header = do
  payload ← read_payload (from_be32 (slice 1 5 header))
  lift (decode_command (header ++ payload))

payload_part-le :
    (header : List ℕ) (r t : Reader) (command : Command)
    → payload_part header r ≡ (ok command, t)
    → length t.bytes ≤ length r.bytes
unfolding payload_part
payload_part-le header r t command h =
    let n = from_be32 (slice 1 5 header) in
    let (payload, e, rest) =
      bind-ok (read_payload n) (λ payload. lift (decode_command (header ++ payload))) r h in
    omega (arith, read_payload-le n r, ap (λ p. length p.1.bytes) rest)

-- A command that was read took its header at least.
read_command-lt :
    (r : Reader) (command : Command)
    → (read_command r).0 ≡ ok command
    → length (read_command r).1.bytes < length r.bytes
unfolding read_command payload_part
read_command-lt r command h =
    let t = (read_command r).1 in
    let (header, e, rest) =
      bind-ok (read_exact header_size)
        (λ header.
          if ltb max_payload_size (from_be32 (slice 1 5 header))
          then fail (protocol payload_too_large)
          else payload_part header)
        r (ap (λ x. (x, t)) h) in
    elim (Bool-cases (ltb max_payload_size (from_be32 (slice 1 5 header)))) [
      | inl large ↦ cc
      | inr fine ↦ omega (
        arith,
        read_exact-lt header_size r header (omega arith) e,
        payload_part-le header (read_exact header_size r).1 t command (rw fine at rest),
      )
    ]

module _ (libs : Libraries) (display : AtlasError → List ℕ) where
  respond-reader :
      (turn : Turn) (command : Command) (c : Connection)
      → (respond libs display turn command c).1.reader ≡ c.reader
  unfolding respond
  respond-reader turn command c = refl

  on_read_error-some :
      (x : AtlasError) (c : Connection)
      → (result : Result (Unit {0})) × ((on_read_error libs display x c).0 ≡ some result)
  unfolding on_read_error
  on_read_error-some x c = elim (Bool-cases (ends_reading x)) [
    | inl ends ↦ (ok tt, rw ends)
    | inr more ↦ (err x, rw more)
  ]

  -- A round that goes on has taken a command off the stream.
  round-lt :
      (turn : Turn) (c : Connection)
      → (round libs display turn c).0 ≡ none
      → length (round libs display turn c).1.reader.bytes < length c.reader.bytes
  unfolding round
  round-lt turn c h = elim (Result-cases (read_command c.reader).0) [
    | inl (command, e) ↦
        rw (e, round)
          (subst (λ r. length r.bytes < length c.reader.bytes) (sym (respond-reader turn command _))
            (read_command-lt c.reader command e))
    | inr (x, e) ↦
        let (result, done) =
          on_read_error-some x (record c { reader = (read_command c.reader).1 }) in
        cc (rw (e, round) at h, done)
  ]

  -- With more rounds than bytes arrive, the loop of a connection returns, whatever the bytes, the
  -- outcomes of the system calls and the other connections.
  pub handle_total :
      (rounds : ℕ) (turns : ℕ → Turn) (c : Connection)
      → length c.reader.bytes < rounds
      → (result : Result (Unit {0})) × ((handle libs display rounds turns c).0 ≡ some result)
  unfolding handle
  handle_total zero turns c h = absurd (omega arith)
  handle_total (suc rounds) turns c h = elim (Option-cases (round libs display (turns 0) c).0) [
    | inr (result, e) ↦ (result, rw (e, handle))
    | inl e ↦
        let (result, done) =
          handle_total rounds (λ i. turns (suc i)) (round libs display (turns 0) c).1
            (omega (arith, round-lt (turns 0) c e)) in
        (result, rw (e, handle) done)
  ]
