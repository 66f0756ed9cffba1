-- ===== src/Aof/Chunks.antt =====
-- How the append-only file is cut into reads does not matter to AOFParser.
use make_your_own_redis_go.Shared.{
  ℕ, zero, suc, ◌+◌, ◌≡◌, refl, sym, ◌∙◌, ap, Bytes, some, arith, inl, inr, Option-cases,
  Bool-cases, has_prefix, List, [], append-nil,
}
use make_your_own_redis_go.Reader.{Reader, read_string, stream, joined, size}
use make_your_own_redis_go.Reader.Flat.{Same, Agree, read_string-Agree}
use make_your_own_redis_go.Server.{Server}
use make_your_own_redis_go.Aof.{read_args, arg_count, replay_line, replay_read, replay, aof_parser}
use make_your_own_redis_go.Aof.RoundTrip.{aof_parser-ends, aof_parser-log, log, stored, AllPairs}

read_args-Agree : (n : ℕ) (r q : Reader) → Same r q → Agree (read_args n r) (read_args n q)
unfolding read_args
read_args-Agree zero r q h = (refl, h)
read_args-Agree (suc n) r q h =
    let skipped = read_string-Agree r q h in
    let kept = read_string-Agree (read_string r).rest (read_string q).rest skipped.2 in
    let more =
      read_args-Agree n (read_string (read_string r).rest).rest
        (read_string (read_string q).rest).rest kept.2 in
    (cc (more.0, kept.0), more.1)

replay_line-Agree :
    (line : Bytes) (r q : Reader) (s : Server)
    → Same r q
    → Same (replay_line line r s).0 (replay_line line q s).0
      × ((replay_line line r s).1 ≡ (replay_line line q s).1)
unfolding replay_line
replay_line-Agree line r q s h = elim (Bool-cases (has_prefix b'*' line)) [
  | inl star ↦
      let args = read_args-Agree (arg_count line) r q h in rw star (args.1, rw (args.0) refl)
  | inr other ↦ rw other (h, refl)
]

-- With the same fuel two readers with the same bytes to come give the same server.
replay-Agree : (fuel : ℕ) (r q : Reader) (s : Server) → Same r q → replay fuel r s ≡ replay fuel q s
unfolding replay replay_read
replay-Agree zero r q s h = refl
replay-Agree (suc fuel) r q s h =
    let line = read_string-Agree r q h in
    elim (Option-cases (read_string q).error) [
      | inl good ↦
          let next =
            replay_line-Agree (read_string q).text (read_string r).rest (read_string q).rest s
              line.2 in
          rw (line.0, line.1, good, next.1)
            (replay-Agree fuel (replay_line (read_string q).text (read_string r).rest s).0
              (replay_line (read_string q).text (read_string q).rest s).0
              (replay_line (read_string q).text (read_string q).rest s).1 next.0)
      | inr (e, bad) ↦ rw (line.1, bad) refl
    ]

-- More fuel than enough changes nothing.
replay_more :
    (fuel more : ℕ) (r : Reader) (s t : Server)
    → replay fuel r s ≡ some t
    → replay (fuel + more) r s ≡ some t
unfolding replay replay_read
replay_more zero more r s t h = cc
replay_more (suc fuel) more r s t h =
    let e : suc fuel + more ≡ suc (fuel + more) = omega arith in
    rw e (elim (Option-cases (read_string r).error) [
      | inl good ↦ rw good (replay_more fuel more _ _ t (rw good at h))
      | inr (e, bad) ↦ rw bad (rw bad at h)
    ])

aof_parser-replay :
    (more : ℕ) (r : Reader) (s : Server) → aof_parser r s ≡ replay (suc (size r) + more) r s
aof_parser-replay more r s = elim (Option-cases (aof_parser r s)) [
  | inl e ↦ absurd (aof_parser-ends r s e)
  | inr (t, e) ↦ e ∙ sym (replay_more (suc (size r)) more r s t (unfold aof_parser in e))
]

-- AOFParser does the same on every two readers of the same file, however the reads cut it.
pub aof_parser-Agree : (r q : Reader) (s : Server) → Same r q → aof_parser r s ≡ aof_parser q s
aof_parser-Agree r q s h =
    let swap : suc (size r) + suc (size q) ≡ suc (size q) + suc (size r) = omega arith in
    aof_parser-replay (suc (size q)) r s
    ∙ (replay-Agree (suc (size r) + suc (size q)) r q s h
        ∙ (ap (λ n. replay n q s) swap ∙ sym (aof_parser-replay (suc (size r)) q s)))

-- AOFParser on a file that SETs with arguments of one line have appended to, however the reads cut the
-- file: it ends, the keyspace is the one after those SETs, and nothing else has changed.
pub aof_parser-restores :
    (ps : List (Bytes × Bytes)) (r : Reader) (s : Server)
    → stream r ≡ log ps
    → AllPairs ps
    → aof_parser r s ≡ some (record s { memory = stored ps s.memory })
unfolding stream joined
aof_parser-restores ps r s h args =
    let whole : Reader = record r { buffered = log ps; pending = [] } in
    aof_parser-Agree r whole s (h ∙ whole_stream, refl) ∙ aof_parser-log ps whole s refl args
  where
    whole_stream : log ps ≡ stream (record r { buffered = log ps; pending = [] })
    whole_stream = sym (append-nil (log ps))
