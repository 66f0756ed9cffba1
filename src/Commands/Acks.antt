-- ===== src/Commands/Acks.antt =====
-- The acknowledgement of a replica's offset, from the replica's answer to the master's note of it.
use mathlib.Core.List.{reverse-cons, reverse-reverse}
use make_your_own_redis_go.Shared.{
  ℕ, zero, suc, ◌+◌, ◌/◌, ◌%◌, ◌^◌, ◌≤◌, ◌<◌, ◌≡◌, ◌≢◌, refl, ap, ◌∙◌, List, [], ◌∷◌, ◌++◌, reverse,
  some, Bool, true, false, not, if◌then◌else◌, Bytes, codes, arith, beq, length, ltb, Bool-cases,
  inl, inr,
}
use make_your_own_redis_go.Shared.Int.{ℤ, pos, ◌+ℤ◌}
use make_your_own_redis_go.Shared.Dict.{load, store}
use make_your_own_redis_go.Text.{is_space, trim_left, trim_space, to_upper, digits, itoa, itoa_ℤ}
use make_your_own_redis_go.Text.Decimal.{atoi-itoa}
use make_your_own_redis_go.Resp.{bulk, command}
use make_your_own_redis_go.Server.{Conn, Replica, conn_eq, number, text}
use make_your_own_redis_go.Server.Handler.{World, ok}
use make_your_own_redis_go.Server.Arguments.{IsArgument, feed, itoa-Lacks, read_arg_logged-bulk}
use make_your_own_redis_go.Server.Output.{arrives, say-with_output}
use make_your_own_redis_go.Commands.{info_int, int_of, info_string, string_of, store_info}
use make_your_own_redis_go.Commands.Replication.{
  unwrapped, get_ack, note_offset, master_conf, handle_replconf, get_ack_command,
}

abbrev AllDigits : Bytes → Type 0
AllDigits [] = Unit
AllDigits (c ∷ s) = ((b'0' ≤ c) × (c ≤ b'9')) × AllDigits s

AllDigits-digits : (fuel n : ℕ) (out : Bytes) → AllDigits out → AllDigits (digits fuel n out)
unfolding digits
AllDigits-digits zero n out h = h
AllDigits-digits (suc fuel) n out h = elim (Bool-cases (ltb n 10)) [
  | inl e ↦ rw e (ground arith, h)
  | inr e ↦ rw e (AllDigits-digits fuel (n / 10) ((b'0' + n % 10) ∷ out) (ground arith, h))
]

AllDigits-append : (s t : Bytes) → AllDigits s → AllDigits t → AllDigits (s ++ t)
AllDigits-append [] t h k = k
AllDigits-append (c ∷ s) t h k = (h.0, AllDigits-append s t (h.1) k)

AllDigits-reverse : (s : Bytes) → AllDigits s → AllDigits (reverse s)
AllDigits-reverse [] h = tt
AllDigits-reverse (c ∷ s) h =
    rw reverse-cons (AllDigits-append (reverse s) (c ∷ []) (AllDigits-reverse s (h.1)) (h.0, tt))

trim_left-AllDigits : (s : Bytes) → AllDigits s → trim_left s ≡ s
unfolding trim_left is_space
trim_left-AllDigits [] h = refl
trim_left-AllDigits (c ∷ s) h = ground (arith, h.0)

trim_space-AllDigits : (s : Bytes) → AllDigits s → trim_space s ≡ s
unfolding trim_space
trim_space-AllDigits s h = rw (
  trim_left-AllDigits s h,
  trim_left-AllDigits (reverse s) (AllDigits-reverse s h),
  reverse-reverse,
)

-- A number that was printed is an argument.
pub itoa-IsArgument : (n : ℕ) → IsArgument (itoa n)
itoa-IsArgument n = record {
  one_line = itoa-Lacks n;
  trimmed = trim_space-AllDigits (itoa n) (unfold itoa in AllDigits-digits (suc n) n [] tt);
}

ack-IsArgument : IsArgument (codes "ACK")
unfolding trim_space
ack-IsArgument = record { one_line = ground arith; trimmed = refl }

-- The answer of a replica to GETACK: it sends its offset to the connection itself, a SilentConn or not,
-- and then counts the bytes of the command GETACK; nothing else changes.
get_ack_lem :
    (conn : Conn) (n : ℤ) (w : World)
    → load (codes "repl_offset") w.server.info ≡ some (number n)
    → let reply = command (codes "REPLCONF" ∷ codes "ACK" ∷ itoa_ℤ n ∷ []) in
      get_ack conn w ≡ (
        ok tt,
        record w {
          server = record (w.server) {
            output = w.server.output ++ arrives (unwrapped conn) w.server reply;
            info =
                store
                  (codes "repl_offset")
                  (number (n +ℤ pos (length get_ack_command)))
                  w.server.info;
          };
        },
      )
unfolding get_ack info_int int_of store_info
get_ack_lem conn n w there = rw (there, say-with_output)

-- The first replica on the connection, if there is one, has the offset; all others are as they were.
pub data Noted (conn : Conn) (offset : ℤ) : List Replica → List Replica → Type 0 where
  nobody : Noted conn offset [] []
  first :
      (r : Replica) (rs : List Replica)
      → r.conn ≡ conn
      → Noted conn offset (r ∷ rs) (record r { offset = offset } ∷ rs)
  later :
      (r : Replica) (rs qs : List Replica)
      → r.conn ≢ conn
      → Noted conn offset rs qs
      → Noted conn offset (r ∷ rs) (r ∷ qs)

silent_same : (a b : Bool) → (if a then b else not b) ≡ true → a ≡ b
silent_same true true h = refl
silent_same true false h = cc
silent_same false true h = cc
silent_same false false h = refl

conn_same : (a b : Conn) → a.id ≡ b.id → a.silent ≡ b.silent → a ≡ b
conn_same a b e f =
    let make : ℕ → Bool → Conn = λ i s. record { id = i; silent = s } in
    ap (λ i. make i a.silent) e ∙ ap (make b.id) f

conn_eq_lem : (a b : Conn) → conn_eq a b ≡ true → a ≡ b
unfolding conn_eq
conn_eq_lem a b h = conn_same a b (ground arith) (silent_same a.silent b.silent (ground arith))

conn_eq_refl : (a : Conn) → conn_eq a a ≡ true
unfolding conn_eq
conn_eq_refl a = elim (Bool-cases a.silent) [ inl e ↦ ground arith | inr e ↦ ground arith ]

conn_ne : (a b : Conn) → conn_eq a b ≡ false → a ≢ b
conn_ne a b h e = let same : conn_eq a b ≡ true = ap (λ x. conn_eq x b) e ∙ conn_eq_refl b in cc

note_offset-Noted :
    (conn : Conn) (offset : ℤ) (rs : List Replica)
    → Noted conn offset rs (note_offset conn offset rs)
unfolding note_offset
note_offset-Noted conn offset [] = Noted.nobody
note_offset-Noted conn offset (r ∷ rs) = elim (Bool-cases (conn_eq r.conn conn)) [
  | inl e ↦ rw e (Noted.first r rs (conn_eq_lem r.conn conn e))
  | inr e ↦ rw e (Noted.later r rs _ (conn_ne r.conn conn e) (note_offset-Noted conn offset rs))
]

-- A master reads the acknowledgement of an offset that an `int` can hold back as that number, and notes
-- it for the first replica on the connection and for no other; nothing else of the server changes.
pub handle_replconf-ack :
    (conn : Conn) (n : ℕ) (rest : Bytes) (w : World)
    → n < 2 ^ 63
    → load (codes "role") w.server.info ≡ some (text (codes "master"))
    → (replicas : List Replica) × Noted conn (pos n) w.server.replicas replicas
      × (handle_replconf conn (feed (bulk (codes "ACK") ++ (bulk (itoa n) ++ rest)) w)
          ≡ (ok tt, record (feed rest w) { server = record (w.server) { replicas = replicas } }))
unfolding handle_replconf master_conf info_string string_of beq to_upper
handle_replconf-ack conn n rest w small role = (
  note_offset conn (pos n) w.server.replicas,
  note_offset-Noted conn (pos n) w.server.replicas,
  rw
      (
        read_arg_logged-bulk (codes "ACK") _ w ack-IsArgument,
        read_arg_logged-bulk (itoa n) rest w (itoa-IsArgument n),
        role,
        atoi-itoa n small,
      )
      refl,
)
