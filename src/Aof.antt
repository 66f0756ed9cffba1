-- ===== src/Aof.antt =====
-- utils.go: AOFParser, which replays the append-only file at startup.
pub mod RoundTrip
pub mod Chunks
pub mod Log
use make_your_own_redis_go.Shared.{
  ℕ, zero, suc, Bool, true, false, List, [], ◌∷◌, ◌++◌, Option, none, some, Bytes, codes, beq,
  has_prefix, trim_prefix, if◌then◌else◌,
}
use make_your_own_redis_go.Shared.Int.{ℤ, pos_part, ◌+ℤ◌, mul_wrap}
use make_your_own_redis_go.Shared.Dict.{store}
use make_your_own_redis_go.Text.{trim_space, to_upper, atoi}
use make_your_own_redis_go.Reader.{Reader, Line, ReadError, read_string, size}
use make_your_own_redis_go.Server.{Server}

-- The loop over the arguments: a line that is skipped and one that is kept, whatever their errors.
unfoldable pub read_args : ℕ → Reader → List Bytes × Reader
read_args zero r = ([], r)
read_args (suc n) r =
    let line = read_string (read_string r).rest in
    let more = read_args n line.rest in (trim_space line.text ∷ more.0, more.1)

-- The goroutine that deletes the key after `px` milliseconds, if the option PX follows.
unfoldable pub restore_expiry : Bytes → List Bytes → Server → Server
restore_expiry key [] s = s
restore_expiry key (option ∷ []) s = s
restore_expiry key (option ∷ px ∷ more) s =
    if beq (to_upper option) (codes "PX")
    then record s {
      timers = s.timers ++ (record { key = key; due = s.now +ℤ mul_wrap (atoi px).0 1000000 }) ∷ [];
    }
    else s

-- The switch: only SET with a key and a value has an effect.
unfoldable pub restore : List Bytes → Server → Server
restore [] s = s
restore (cmd ∷ []) s = s
restore (cmd ∷ key ∷ []) s = s
restore (cmd ∷ key ∷ val ∷ more) s =
    if beq (to_upper cmd) (codes "SET")
    then restore_expiry key more (record s { memory = store key val s.memory })
    else s

-- strconv.Atoi of what stands behind the star of a header line.
unfoldable pub arg_count : Bytes → ℕ
arg_count line = pos_part (atoi (trim_space (trim_prefix b'*' line))).0

-- What one line of the loop does: the reader and the server behind it.
unfoldable pub replay_line : Bytes → Reader → Server → Reader × Server
replay_line line r s =
    if has_prefix b'*' line
    then (let parsed = read_args (arg_count line) r in (parsed.1, restore parsed.0 s))
    else (r, s)

unfoldable pub replay_read : Line → Server → (Reader → Server → Option Server) → Option Server
replay_read line s next = elim line.error [
  | none ↦ next (replay_line line.text line.rest s).0 (replay_line line.text line.rest s).1
  | some e ↦ some s
]

-- The loop, on fuel; `none` when the fuel is used up. Every error of a read ends it.
unfoldable pub replay : ℕ → Reader → Server → Option Server
replay zero r s = none
replay (suc fuel) r s = replay_read (read_string r) s (replay fuel)

-- AOFParser, once the file is open: a round for each byte.
unfoldable pub aof_parser : Reader → Server → Option Server
aof_parser r s = replay (suc (size r)) r s
