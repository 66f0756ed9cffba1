-- ===== src/Rdb/RoundTrip.antt =====
-- LoadRDB reads back the strings of a file in the RDB format.
use make_your_own_redis_go.Shared.{
  ℕ, zero, suc, ◌*◌, ◌/◌, ◌^◌, ◌<◌, ◌≡◌, refl, sym, ap, ◌∙◌, false, List, [], ◌∷◌, ◌++◌,
  append_assoc, append-nil, length-append, Option, some, Bytes, codes, inl, inr, arith, leb, length,
  Bool-cases,
}
use make_your_own_redis_go.Shared.Int.{pos, sub_ℕ, ◌+ℤ◌, ◌-ℤ◌, leb_ℤ, min_ℤ, max_ℤ, of_bits, times}
use make_your_own_redis_go.Reader.{Reader, read_byte, stream, joined}
use make_your_own_redis_go.Reader.Lines.{on_buffer}
use make_your_own_redis_go.Reader.Stream.{read_byte-buffer, read_full-buffer}
use make_your_own_redis_go.Server.{Server}
use make_your_own_redis_go.Rdb.{
  word_of, read_word, little_endian, onward, load_value, load_key, load_pair, store_value,
  unix_milli, time_until, store_until, load_expiring, load_entry, load_step, follow, load_loop,
  load_body, load_rdb,
}
use make_your_own_redis_go.Rdb.Chunks.{load_rdb-Agree}
use make_your_own_redis_go.Rdb.Lengths.{
  encode_length, encode_text, read_length-encode, read_text-encode,
}
use make_your_own_redis_go.Rdb.Format.{
  Entry, note, database, sizes, string, expiring, low_bytes, encode_entry, encode_entries, rdb_file,
  Fits, EntryFits, AllFit, restored_entry, restored,
}

little_endian-low_bytes : (k n : ℕ) → n < 256 ^ k → little_endian (low_bytes k n) ≡ n
unfolding little_endian low_bytes
little_endian-low_bytes zero n h = omega arith
little_endian-low_bytes (suc k) n h =
    let power : 256 ^ suc k ≡ 256 * 256 ^ k = omega arith in
    omega (arith, little_endian-low_bytes k (n / 256) (omega arith))

time_left :
    (ms now : ℕ)
    → ms * 1000000 < 2 ^ 63
    → now < 2 ^ 63
    → time_until (unix_milli ms) (pos now) ≡ sub_ℕ (ms * 1000000) now
unfolding time_until unix_milli times of_bits min_ℤ max_ℤ ◌-ℤ◌
time_left ms now h k = ground arith

has_passed : (a now : ℕ) → leb_ℤ (sub_ℕ a now) (pos 0) ≡ leb a now
has_passed a now = ground arith

due_again : (a now : ℕ) → leb a now ≡ false → pos now +ℤ sub_ℕ a now ≡ pos a
unfolding ◌+ℤ◌
due_again a now h = ground arith

store_until-entry :
    (ms now : ℕ) (key val : Bytes) (s : Server)
    → ms * 1000000 < 2 ^ 63
    → now < 2 ^ 63
    → s.now ≡ pos now
    → store_until (unix_milli ms) key val s ≡ restored_entry now (expiring ms key val) s
unfolding store_until
store_until-entry ms now key val s h k e = elim (Bool-cases (leb (ms * 1000000) now)) [
  | inl passed ↦ rw (e, time_left ms now h k, has_passed (ms * 1000000) now, passed) refl
  | inr ahead ↦
      rw
        (
          e,
          time_left ms now h k,
          has_passed (ms * 1000000) now,
          ahead,
          due_again (ms * 1000000) now ahead,
        )
        refl
]

-- A key and its value, at the end of an entry.
load_pair-encode :
    (keep : Bytes → Bytes → Server → Server) (key val t : Bytes) (r : Reader) (s : Server)
    → Fits key
    → Fits val
    → load_pair keep (on_buffer ((encode_text key ++ encode_text val) ++ t) r) s
      ≡ onward (on_buffer t r) (keep key val s)
unfolding load_pair load_key load_value
load_pair-encode keep key val t r s fits fits' =
    rw
      (
        append_assoc (encode_text key) (encode_text val) t,
        read_text-encode key (encode_text val ++ t) r fits,
        read_text-encode val t r fits',
      )
      refl

read_word-low_bytes :
    (n : ℕ) (t : Bytes) (r : Reader)
    → n < 256 ^ 8
    → read_word little_endian 8 (on_buffer (low_bytes 8 n ++ t) r) ≡ (n, on_buffer t r)
unfolding read_word word_of low_bytes
read_word-low_bytes n t r h =
    rw (read_full-buffer (low_bytes 8 n) t r, little_endian-low_bytes 8 n h) refl

load_expiring-encode :
    (ms : ℕ) (key val t : Bytes) (r : Reader) (s : Server)
    → ms < 256 ^ 8
    → Fits key
    → Fits val
    → load_expiring unix_milli
        (on_buffer (low_bytes 8 ms ++ 0 ∷ ((encode_text key ++ encode_text val) ++ t)) r)
        s
      ≡ onward (on_buffer t r) (store_until (unix_milli ms) key val s)
unfolding load_expiring
load_expiring-encode ms key val t r s small fits fits' =
    let pair = (encode_text key ++ encode_text val) ++ t in
    ap (λ (w : ℕ × Reader). load_pair (store_until (unix_milli w.0)) (read_byte w.1).1 s)
      (read_word-low_bytes ms (0 ∷ pair) r small)
    ∙ (ap (λ (p : Option ℕ × Reader). load_pair (store_until (unix_milli ms)) p.1 s)
          (read_byte-buffer 0 pair r)
        ∙ load_pair-encode (store_until (unix_milli ms)) key val t r s fits fits')

-- One round of the loop.
load_step-entry :
    (e : Entry) (now : ℕ) (t : Bytes) (r : Reader) (s : Server)
    → EntryFits e
    → now < 2 ^ 63
    → s.now ≡ pos now
    → load_step (read_byte (on_buffer (encode_entry e ++ t) r)) s
      ≡ onward (on_buffer t r) (restored_entry now e s)
unfolding load_step load_entry
load_step-entry (note a b) now t r s h k at =
    rw
      (
        read_byte-buffer 0xFA ((encode_text a ++ encode_text b) ++ t) r,
        append_assoc (encode_text a) (encode_text b) t,
        read_text-encode a (encode_text b ++ t) r h.0,
        read_text-encode b t r h.1,
      )
      refl
load_step-entry (database n) now t r s h k at =
    rw (read_byte-buffer 0xFE (encode_length n ++ t) r, read_length-encode n t r h) refl
load_step-entry (sizes n m) now t r s h k at =
    rw
      (
        read_byte-buffer 0xFB ((encode_length n ++ encode_length m) ++ t) r,
        append_assoc (encode_length n) (encode_length m) t,
        read_length-encode n (encode_length m ++ t) r h.0,
        read_length-encode m t r h.1,
      )
      refl
load_step-entry (string key val) now t r s h k at =
    ap (λ p. load_step p s) (read_byte-buffer 0 ((encode_text key ++ encode_text val) ++ t) r)
    ∙ load_pair-encode store_value key val t r s h.0 h.1
load_step-entry (expiring ms key val) now t r s h k at =
    let pair = (encode_text key ++ encode_text val) ++ t in
    rw (append_assoc (low_bytes 8 ms) (0 ∷ (encode_text key ++ encode_text val)) t) (
      ap (λ p. load_step p s) (read_byte-buffer 0xFC (low_bytes 8 ms ++ 0 ∷ pair) r)
      ∙ (load_expiring-encode ms key val t r s (omega arith) h.1 h.2
          ∙ ap (onward (on_buffer t r)) (store_until-entry ms now key val s h.0 k at)))

restored_entry-now : (now : ℕ) (e : Entry) (s : Server) → (restored_entry now e s).now ≡ s.now
restored_entry-now now (note a b) s = refl
restored_entry-now now (database n) s = refl
restored_entry-now now (sizes n k) s = refl
restored_entry-now now (string key val) s = refl
restored_entry-now now (expiring ms key val) s = elim (Bool-cases (leb (ms * 1000000) now)) [
  | inl passed ↦ rw passed refl
  | inr ahead ↦ rw ahead refl
]

load_loop-entries :
    (fuel now : ℕ) (es : List Entry) (t : Bytes) (r : Reader) (s : Server)
    → length es < fuel
    → AllFit es
    → now < 2 ^ 63
    → s.now ≡ pos now
    → load_loop fuel (on_buffer (encode_entries es ++ 0xFF ∷ t) r) s ≡ some (restored now es s)
unfolding load_loop follow
load_loop-entries zero now es t r s enough fit k at = absurd (omega arith)
load_loop-entries (suc fuel) now [] t r s enough fit k at =
    ap (λ p. follow (load_step p s) (load_loop fuel)) (read_byte-buffer 0xFF t r) ∙ end_mark
  where
    end_mark : follow (load_step (some 0xFF, on_buffer t r) s) (load_loop fuel) ≡ some s
    end_mark = unfold load_step load_entry in refl
load_loop-entries (suc fuel) now (e ∷ es) t r s enough fit k at =
    rw (append_assoc (encode_entry e) (encode_entries es) (0xFF ∷ t)) (
      ap (λ step. follow step (load_loop fuel))
        (load_step-entry e now (encode_entries es ++ 0xFF ∷ t) r s fit.0 k at)
      ∙ load_loop-entries fuel now es t r (restored_entry now e s) (omega arith) fit.1 k
          (restored_entry-now now e s ∙ at))

entry-length : (e : Entry) → 0 < length (encode_entry e)
entry-length (note a b) = omega arith
entry-length (database n) = omega arith
entry-length (sizes n k) = omega arith
entry-length (string key val) = omega arith
entry-length (expiring ms key val) = omega arith

entries-length : (es : List Entry) (t : Bytes) → length es < length (encode_entries es ++ 0xFF ∷ t)
entries-length [] t = omega arith
entries-length (e ∷ es) t = rw (append_assoc (encode_entry e) (encode_entries es) (0xFF ∷ t)) (
    omega (
      arith,
      length-append (encode_entry e) (encode_entries es ++ 0xFF ∷ t),
      entry-length e,
      entries-length es t,
    ))

load_rdb-whole :
    (c d : ℕ) (dir filename : Bytes) (now : ℕ) (es : List Entry) (t : Bytes) (r : Reader)
    (s : Server)
    → AllFit es
    → now < 2 ^ 63
    → s.now ≡ pos now
    → load_rdb (c ∷ dir) (d ∷ filename) (some (on_buffer (rdb_file es t) r)) s
      ≡ some (restored now es s)
unfolding load_rdb load_body stream
load_rdb-whole c d dir filename now es t r s fit k at =
    let body = encode_entries es ++ 0xFF ∷ t in
    ap (λ p. load_body p s) (read_full-buffer (codes "REDIS0011") body r)
    ∙ load_loop-entries (suc (length (body ++ joined r.pending))) now es t r s
        (omega (arith, length-append body (joined r.pending), entries-length es t)) fit k at

-- LoadRDB on a file in the RDB format, with notes, database and size marks, and plainly written strings
-- with and without an expiry in milliseconds, however the reads cut it: it ends, and each string is
-- stored, in the order of the file, unless its time has passed; one with a time ahead is deleted at
-- that time; and nothing else changes. Lengths fit into 32 bits, and times and the clock into 63.
pub load_rdb-restores :
    (c d : ℕ) (dir filename : Bytes) (now : ℕ) (es : List Entry) (t : Bytes) (r : Reader)
    (s : Server)
    → stream r ≡ rdb_file es t
    → AllFit es
    → now < 2 ^ 63
    → s.now ≡ pos now
    → load_rdb (c ∷ dir) (d ∷ filename) (some r) s ≡ some (restored now es s)
unfolding stream joined
load_rdb-restores c d dir filename now es t r s h fit k at =
    let whole : Reader = record r { buffered = rdb_file es t; pending = [] } in
    load_rdb-Agree (c ∷ dir) (d ∷ filename) r whole s (h ∙ sym (append-nil (rdb_file es t)), refl)
    ∙ load_rdb-whole c d dir filename now es t whole s fit k at
