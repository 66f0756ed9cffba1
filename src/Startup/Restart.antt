-- ===== src/Startup/Restart.antt =====
-- A master that starts with an append-only file has the keyspace of that file.
use make_your_own_redis_go.Shared.{
  ℕ, ◌≡◌, ◌∙◌, refl, ap, true, if◌then◌else◌, List, [], ◌∷◌, ◌++◌, some, none, Bytes, codes, beq,
}
use make_your_own_redis_go.Text.{itoa_ℤ}
use make_your_own_redis_go.Text.Words.{split, IsWord}
use make_your_own_redis_go.Reader.{Reader, stream}
use make_your_own_redis_go.Server.{Server, text}
use make_your_own_redis_go.Shared.Dict.{store}
use make_your_own_redis_go.Aof.RoundTrip.{log, stored, AllPairs}
use make_your_own_redis_go.Aof.Chunks.{aof_parser-restores}
use make_your_own_redis_go.Rdb.{load_rdb}
use make_your_own_redis_go.Startup.{
  Flags, Machine, up, or_endless, environment, add_default_user, become_master, take_role,
  random_string, manifest_name, manifest_text, choose_file, parse_file, start_aof, load_data, start,
  become_slave,
}
use make_your_own_redis_go.Startup.Manifest.{active_file-manifest_text}

module _ (flags : Flags) (m : Machine) where
  abbrev pub aof_dir : Bytes
  aof_dir = m.join flags.dir flags.appenddirname

  -- The flags of a master with an append-only file, on a machine that does what it is asked to, whose
  -- manifest and whose active file are there.
  pub record IsReady (name : Bytes) (r : Reader) : Type 0 where
    pub master : flags.replicaof ≡ codes "master"
    pub append : flags.appendonly ≡ codes "yes"
    pub listens : m.listens ≡ true
    pub makes : m.make_dir aof_dir ≡ true
    pub manifest :
        m.read_file (m.join aof_dir (flags.appendfilename ++ codes ".manifest"))
        ≡ some (manifest_text name)
    pub opens : m.open_file (m.join aof_dir name) ≡ some r
    pub appends : m.open_append (m.join aof_dir name) ≡ true

  abbrev pub fresh_master : Server → Server
  fresh_master s = record s {
    env = store (codes "appendfsync") flags.appendfsync (
        store (codes "appendfilename") flags.appendfilename (
          store (codes "appenddirname") flags.appenddirname (
            store (codes "appendonly") flags.appendonly (
              store (codes "dbfilename") flags.dbfilename (store (codes "dir") flags.dir s.env)))));
    users =
        store (codes "default") (record { passwords = []; flags = codes "nopass" ∷ [] }) s.users;
    info = store (codes "master_repl_offset") (text (codes "0")) (
        store (codes "master_replid") (text (random_string m.intn 40 0))
          (store (codes "role") (text (codes "master")) s.info));
  }

  module _ (c : ℕ) (name : Bytes) (r : Reader) (ps : List (Bytes × Bytes)) (s : Server) where
    start_aof-restores :
        IsReady (c ∷ name) r
        → IsWord (c ∷ name)
        → stream r ≡ log ps
        → AllPairs ps
        → start_aof flags m s ≡ up (record s { memory = stored ps s.memory; aof = some [] })
    unfolding start_aof choose_file manifest_name parse_file
    start_aof-restores ready word h args =
        rw
          (
            ready.makes,
            ready.manifest,
            active_file-manifest_text c name word,
            ready.opens,
            aof_parser-restores ps r s h args,
            ready.appends,
          )
          refl

  take_role-master :
      (s : Server)
      → flags.replicaof ≡ codes "master"
      → take_role flags m s ≡ up (become_master m s, none)
  unfolding take_role beq
  take_role-master s h =
      ap
        (λ (role : Bytes).
          if beq role (codes "master")
          then up (become_master m s, none)
          else become_slave m (itoa_ℤ flags.port) s (split b' ' role))
        h

  load_data-aof :
      (s : Server) → flags.appendonly ≡ codes "yes" → load_data flags m s ≡ start_aof flags m s
  unfolding load_data beq
  load_data-aof s h =
      ap
        (λ (append : Bytes).
          if beq append (codes "yes")
          then start_aof flags m s
          else or_endless (
              load_rdb flags.dir flags.dbfilename (m.open_file (m.join flags.dir flags.dbfilename))
                s))
        h

  abbrev set_up : Server → Server
  set_up s = become_master m (add_default_user (environment flags s))

  set_up-fresh_master : (s : Server) → set_up s ≡ fresh_master s
  unfolding environment add_default_user become_master
  set_up-fresh_master s = refl

  start-comes_up :
      (c : ℕ) (name : Bytes) (r : Reader) (ps : List (Bytes × Bytes)) (s : Server)
      → IsReady (c ∷ name) r
      → IsWord (c ∷ name)
      → stream r ≡ log ps
      → AllPairs ps
      → start flags m s
        ≡ up (record (set_up s) { memory = stored ps s.memory; aof = some [] }, none)
  unfolding start
  start-comes_up c name r ps s ready word h args =
      let ready_users = add_default_user (environment flags s) in
      rw
        (
          ready.listens,
          take_role-master ready_users ready.master,
          load_data-aof (become_master m ready_users) ready.append,
          start_aof-restores c name r ps (become_master m ready_users) ready word h args,
        )
        refl

  -- A master whose manifest is the one that main writes, for a name without white space, and whose
  -- append-only file is what SETs with arguments of one line have left, however the reads cut it: main
  -- comes up, the keyspace is the one after those SETs, the file is open for more, and all else is as
  -- the flags say.
  pub start-restores :
      (c : ℕ) (name : Bytes) (r : Reader) (ps : List (Bytes × Bytes)) (s : Server)
      → IsReady (c ∷ name) r
      → IsWord (c ∷ name)
      → stream r ≡ log ps
      → AllPairs ps
      → start flags m s
        ≡ up (record (fresh_master s) { memory = stored ps s.memory; aof = some [] }, none)
  start-restores c name r ps s ready word h args =
      start-comes_up c name r ps s ready word h args
      ∙ ap (λ t. up (record t { memory = stored ps s.memory; aof = some [] }, none))
          (set_up-fresh_master s)
