-- ===== src/Rdb/Format.antt =====
-- The file format of an RDB file: what Redis writes for a list of entries, and what a server that loads it
-- has afterwards.
use make_your_own_redis_go.Shared.{
  ℕ, zero, suc, ◌*◌, ◌/◌, ◌%◌, ◌^◌, ◌<◌, List, [], ◌∷◌, ◌++◌, Bytes, codes, leb, length,
  if◌then◌else◌,
}
use make_your_own_redis_go.Shared.Int.{pos}
use make_your_own_redis_go.Shared.Dict.{store}
use make_your_own_redis_go.Server.{Server}
use make_your_own_redis_go.Rdb.Lengths.{encode_length, encode_text}

-- What stands behind the header: a note, the choice of a database, the sizes of its tables, and a
-- string with or without a time in milliseconds at which it expires.
pub data Entry : Type 0 where
  note : Bytes → Bytes → Entry
  database : ℕ → Entry
  sizes : ℕ → ℕ → Entry
  string : Bytes → Bytes → Entry
  expiring : ℕ → Bytes → Bytes → Entry

-- The last `k` bytes of a number, the lowest first.
unfoldable pub low_bytes : ℕ → ℕ → Bytes
low_bytes zero n = []
low_bytes (suc k) n = n % 256 ∷ low_bytes k (n / 256)

abbrev pub encode_entry : Entry → Bytes
encode_entry (note a b) = 0xFA ∷ (encode_text a ++ encode_text b)
encode_entry (database n) = 0xFE ∷ encode_length n
encode_entry (sizes n k) = 0xFB ∷ (encode_length n ++ encode_length k)
encode_entry (string key val) = 0 ∷ (encode_text key ++ encode_text val)
encode_entry (expiring ms key val) =
    0xFC ∷ (low_bytes 8 ms ++ 0 ∷ (encode_text key ++ encode_text val))

abbrev pub encode_entries : List Entry → Bytes
encode_entries [] = []
encode_entries (e ∷ es) = encode_entry e ++ encode_entries es

-- The file: the header, the entries, and the end mark with a checksum behind it.
abbrev pub rdb_file : List Entry → Bytes → Bytes
rdb_file es checksum = codes "REDIS0011" ++ (encode_entries es ++ 0xFF ∷ checksum)

-- The sizes that the format has room for, and times that fit into 63 bits of nanoseconds.
abbrev pub Fits : Bytes → Type 0
Fits s = length s < 2 ^ 32

abbrev pub EntryFits : Entry → Type 0
EntryFits (note a b) = Fits a × Fits b
EntryFits (database n) = n < 2 ^ 32
EntryFits (sizes n k) = (n < 2 ^ 32) × (k < 2 ^ 32)
EntryFits (string key val) = Fits key × Fits val
EntryFits (expiring ms key val) = (ms * 1000000 < 2 ^ 63) × Fits key × Fits val

abbrev pub AllFit : List Entry → Type 0
AllFit [] = Unit
AllFit (e ∷ es) = EntryFits e × AllFit es

-- What an entry means to a server that starts `now` nanoseconds after 1970.
abbrev pub restored_entry : ℕ → Entry → Server → Server
restored_entry now (note a b) s = s
restored_entry now (database n) s = s
restored_entry now (sizes n k) s = s
restored_entry now (string key val) s = record s { memory = store key val s.memory }
restored_entry now (expiring ms key val) s = if leb (ms * 1000000) now then s else record s {
  memory = store key val s.memory;
  timers = s.timers ++ (record { key = key; due = pos (ms * 1000000) }) ∷ [];
}

abbrev pub restored : ℕ → List Entry → Server → Server
restored now [] s = s
restored now (e ∷ es) s = restored now es (restored_entry now e s)
