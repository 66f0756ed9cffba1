-- ===== src/System/Properties.antt =====
-- What holds in every state of the process, whatever the connections send and however their actions
-- interleave.
use make_your_own_redis_go.Shared.{ℕ, ◌≡◌, ◌<◌, ◌&◌}
use make_your_own_redis_go.Geo.{Arithmetic}
use make_your_own_redis_go.Server.{Server, Conn, Library}
use make_your_own_redis_go.Commands.Geo.{Formats}
use make_your_own_redis_go.Serve.{handlers}
use make_your_own_redis_go.Serve.Others
use make_your_own_redis_go.Serve.SetCommands
use make_your_own_redis_go.Serve.Untouched
use make_your_own_redis_go.Serve.Waiting
use make_your_own_redis_go.Serve.Waiting.{
  InOrder, InOrder-IsQuiet, InOrder-IsBlind, InOrder-IsSetless,
}
use make_your_own_redis_go.Serve.Channels.{AreOpen, queued, buffered, waiting-has_room}
use make_your_own_redis_go.Serve.Indexed.{AllIndexed, Holds-IsQuiet, Holds-IsBlind}
use make_your_own_redis_go.Serve.Invariant.{AllKeep, AllKeep-handlers}
use make_your_own_redis_go.System.{Reach}
use make_your_own_redis_go.System.Steady.{IsSteady, Reach-keeps}

module _ (lib : Library) (m : Arithmetic) (formats : Formats) where
  commands-InOrder : (conn : Conn) → AllKeep InOrder (handlers lib m formats conn)
  unfolding handlers
  commands-InOrder conn =
      Others.Keeps-handle_ping InOrder InOrder-IsQuiet InOrder-IsBlind conn
      & Others.Keeps-handle_echo InOrder InOrder-IsQuiet InOrder-IsBlind conn
      & Others.Keeps-handle_set InOrder InOrder-IsQuiet InOrder-IsBlind conn
      & Others.Keeps-handle_get InOrder InOrder-IsQuiet InOrder-IsBlind conn
      & Others.Keeps-handle_acl InOrder InOrder-IsQuiet InOrder-IsBlind lib conn
      & Others.Keeps-handle_auth InOrder InOrder-IsQuiet InOrder-IsBlind lib conn
      & Waiting.Keeps-handle_rpush conn
      & Waiting.Keeps-handle_lrange conn
      & Waiting.Keeps-handle_lpush conn
      & Waiting.Keeps-handle_llen conn
      & Waiting.Keeps-handle_lpop conn
      & Waiting.Keeps-handle_blpop lib conn
      & Others.Keeps-handle_config_get InOrder InOrder-IsQuiet InOrder-IsBlind conn
      & Others.Keeps-handle_keys InOrder InOrder-IsQuiet InOrder-IsBlind conn
      & Others.Keeps-handle_info InOrder InOrder-IsQuiet InOrder-IsBlind conn
      & Others.Keeps-handle_replconf InOrder InOrder-IsQuiet InOrder-IsBlind conn
      & Others.Keeps-handle_psync_master InOrder InOrder-IsQuiet InOrder-IsBlind conn
      & Others.Keeps-handle_wait InOrder InOrder-IsQuiet InOrder-IsBlind conn
      & SetCommands.Keeps-handle_zadd InOrder InOrder-IsQuiet InOrder-IsSetless lib conn
      & SetCommands.Keeps-handle_zrank InOrder InOrder-IsQuiet InOrder-IsSetless conn
      & SetCommands.Keeps-handle_zrange InOrder InOrder-IsQuiet InOrder-IsSetless conn
      & SetCommands.Keeps-handle_zcard InOrder InOrder-IsQuiet InOrder-IsSetless conn
      & SetCommands.Keeps-handle_zscore InOrder InOrder-IsQuiet InOrder-IsSetless lib conn
      & SetCommands.Keeps-handle_zrem InOrder InOrder-IsQuiet InOrder-IsSetless conn
      & SetCommands.Keeps-handle_geoadd InOrder InOrder-IsQuiet InOrder-IsSetless lib m formats conn
      & SetCommands.Keeps-handle_geopos InOrder InOrder-IsQuiet InOrder-IsSetless lib m formats conn
      & SetCommands.Keeps-handle_geodist InOrder InOrder-IsQuiet InOrder-IsSetless lib m formats
          conn
      & SetCommands.Keeps-handle_geosearch InOrder InOrder-IsQuiet InOrder-IsSetless lib m formats
          conn
      & tt

  AreOpen-IsSteady : IsSteady lib m formats AreOpen
  AreOpen-IsSteady = record {
    quiet = InOrder-IsQuiet;
    blind = InOrder-IsBlind;
    commands = commands-InOrder;
    receive = Waiting.Keeps-blpop_receive;
    timeout = Waiting.Keeps-blpop_timeout;
    clock = λ s now h. h;
    deaths = λ s dead h. h;
  }

  Indexed-IsSteady : IsSteady lib m formats (λ s. AllIndexed s.zsets)
  Indexed-IsSteady = record {
    quiet = Holds-IsQuiet;
    blind = Holds-IsBlind;
    commands = AllKeep-handlers lib m formats;
    receive = Untouched.Keeps-blpop_receive AllIndexed;
    timeout = Untouched.Keeps-blpop_timeout AllIndexed;
    clock = λ s now h. h;
    deaths = λ s dead h. h;
  }

  -- Whatever the connections send and however their actions interleave: if at first every channel is in
  -- use once at most, and none that is still to be made, then the channel of a client that waits in the
  -- queue of a list has an empty buffer, so that the send of an RPUSH to it does not block.
  pub Reach-has_room :
      {s t : Server} (c : ℕ)
      → Reach lib m formats s t
      → AreOpen s
      → 0 < queued c t.lists
      → buffered c t.sent ≡ 0
  Reach-has_room {t = t} c r h waits =
      waiting-has_room t (Reach-keeps lib m formats AreOpen AreOpen-IsSteady r h) c waits

  -- Whatever the connections send and however their actions interleave: if at first every sorted set
  -- lists each entry of its map once, with its score, then so it does in every later state.
  pub Reach-AllIndexed :
      {s t : Server} → Reach lib m formats s t → AllIndexed s.zsets → AllIndexed t.zsets
  Reach-AllIndexed r h = Reach-keeps lib m formats (λ s. AllIndexed s.zsets) Indexed-IsSteady r h
