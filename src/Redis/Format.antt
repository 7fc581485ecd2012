-- ===== src/Redis/Format.antt =====
-- redisport/printer.go, and the table of commands of redisport/resp_protocol.go.
use tcp_port.Base.{Bool, List, [], false, if◌then◌else◌, length, ltb, true, ◌++◌, ◌∷◌}
use tcp_port.Base.Slice.{Bytes}
use tcp_port.Base.Text.{codes, shorten}
use tcp_port.Redis.{RespCommand, RespResponse, is_one_of, resp_type}

-- `redisCommands`
abbrev pub redis_commands : List Bytes
redis_commands =
    codes "DEL"
    ∷ codes "DUMP"
    ∷ codes "EXISTS"
    ∷ codes "EXPIRE"
    ∷ codes "EXPIREAT"
    ∷ codes "KEYS"
    ∷ codes "MIGRATE"
    ∷ codes "MOVE"
    ∷ codes "OBJECT"
    ∷ codes "PERSIST"
    ∷ codes "PEXPIRE"
    ∷ codes "PEXPIREAT"
    ∷ codes "PTTL"
    ∷ codes "RANDOMKEY"
    ∷ codes "RENAME"
    ∷ codes "RENAMENX"
    ∷ codes "RESTORE"
    ∷ codes "SORT"
    ∷ codes "TTL"
    ∷ codes "TYPE"
    ∷ codes "SCAN"
    ∷ codes "UNLINK"
    ∷ codes "APPEND"
    ∷ codes "BITCOUNT"
    ∷ codes "BITOP"
    ∷ codes "BITPOS"
    ∷ codes "DECR"
    ∷ codes "DECRBY"
    ∷ codes "GET"
    ∷ codes "GETBIT"
    ∷ codes "GETRANGE"
    ∷ codes "GETSET"
    ∷ codes "INCR"
    ∷ codes "INCRBY"
    ∷ codes "INCRBYFLOAT"
    ∷ codes "MGET"
    ∷ codes "MSET"
    ∷ codes "MSETNX"
    ∷ codes "PSETEX"
    ∷ codes "SET"
    ∷ codes "SETBIT"
    ∷ codes "SETEX"
    ∷ codes "SETNX"
    ∷ codes "SETRANGE"
    ∷ codes "STRLEN"
    ∷ codes "HDEL"
    ∷ codes "HEXISTS"
    ∷ codes "HGET"
    ∷ codes "HGETALL"
    ∷ codes "HINCRBY"
    ∷ codes "HINCRBYFLOAT"
    ∷ codes "HKEYS"
    ∷ codes "HLEN"
    ∷ codes "HMGET"
    ∷ codes "HMSET"
    ∷ codes "HSET"
    ∷ codes "HSETNX"
    ∷ codes "HVALS"
    ∷ codes "HSCAN"
    ∷ codes "HSTRLEN"
    ∷ codes "BLPOP"
    ∷ codes "BRPOP"
    ∷ codes "BRPOPLPUSH"
    ∷ codes "LINDEX"
    ∷ codes "LINSERT"
    ∷ codes "LLEN"
    ∷ codes "LPOP"
    ∷ codes "LPUSH"
    ∷ codes "LPUSHX"
    ∷ codes "LRANGE"
    ∷ codes "LREM"
    ∷ codes "LSET"
    ∷ codes "LTRIM"
    ∷ codes "RPOP"
    ∷ codes "RPOPLPUSH"
    ∷ codes "RPUSH"
    ∷ codes "RPUSHX"
    ∷ codes "SADD"
    ∷ codes "SCARD"
    ∷ codes "SDIFF"
    ∷ codes "SDIFFSTORE"
    ∷ codes "SINTER"
    ∷ codes "SINTERSTORE"
    ∷ codes "SISMEMBER"
    ∷ codes "SMEMBERS"
    ∷ codes "SMOVE"
    ∷ codes "SPOP"
    ∷ codes "SRANDMEMBER"
    ∷ codes "SREM"
    ∷ codes "SUNION"
    ∷ codes "SUNIONSTORE"
    ∷ codes "SSCAN"
    ∷ codes "ZADD"
    ∷ codes "ZCARD"
    ∷ codes "ZCOUNT"
    ∷ codes "ZINCRBY"
    ∷ codes "ZINTERSTORE"
    ∷ codes "ZLEXCOUNT"
    ∷ codes "ZRANGE"
    ∷ codes "ZRANGEBYLEX"
    ∷ codes "ZRANGEBYSCORE"
    ∷ codes "ZRANK"
    ∷ codes "ZREM"
    ∷ codes "ZREMRANGEBYLEX"
    ∷ codes "ZREMRANGEBYRANK"
    ∷ codes "ZREMRANGEBYSCORE"
    ∷ codes "ZREVRANGE"
    ∷ codes "ZREVRANGEBYLEX"
    ∷ codes "ZREVRANGEBYSCORE"
    ∷ codes "ZREVRANK"
    ∷ codes "ZSCORE"
    ∷ codes "ZUNIONSTORE"
    ∷ codes "ZSCAN"
    ∷ codes "PSUBSCRIBE"
    ∷ codes "PUBLISH"
    ∷ codes "PUBSUB"
    ∷ codes "PUNSUBSCRIBE"
    ∷ codes "SUBSCRIBE"
    ∷ codes "UNSUBSCRIBE"
    ∷ codes "DISCARD"
    ∷ codes "EXEC"
    ∷ codes "MULTI"
    ∷ codes "UNWATCH"
    ∷ codes "WATCH"
    ∷ codes "EVAL"
    ∷ codes "EVALSHA"
    ∷ codes "SCRIPT"
    ∷ codes "AUTH"
    ∷ codes "CLIENT"
    ∷ codes "CLUSTER"
    ∷ codes "COMMAND"
    ∷ codes "CONFIG"
    ∷ codes "DBSIZE"
    ∷ codes "DEBUG"
    ∷ codes "ECHO"
    ∷ codes "FLUSHALL"
    ∷ codes "FLUSHDB"
    ∷ codes "INFO"
    ∷ codes "LATENCY"
    ∷ codes "MEMORY"
    ∷ codes "MONITOR"
    ∷ codes "PING"
    ∷ codes "QUIT"
    ∷ codes "REPLICAOF"
    ∷ codes "ROLE"
    ∷ codes "SAVE"
    ∷ codes "SELECT"
    ∷ codes "SHUTDOWN"
    ∷ codes "SLAVEOF"
    ∷ codes "SLOWLOG"
    ∷ codes "SYNC"
    ∷ codes "TIME"
    ∷ codes "XADD"
    ∷ codes "XDEL"
    ∷ codes "XLEN"
    ∷ codes "XRANGE"
    ∷ codes "XREAD"
    ∷ codes "XREVRANGE"
    ∷ codes "XGROUP"
    ∷ codes "XPENDING"
    ∷ codes "XACK"
    ∷ codes "SENTINEL"
    ∷ []

-- `IsKnownRedisCommand`; `to_upper` is `strings.ToUpper`.
unfoldable pub is_known_redis_command : (Bytes → Bytes) → Bytes → Bool
is_known_redis_command to_upper cmd = is_one_of (to_upper cmd) redis_commands

abbrev has_text : Bytes → Bool
has_text [] = false
has_text (c ∷ cs) = true

abbrev pub second : List Bytes → Bytes
second [] = []
second (a ∷ []) = []
second (a ∷ b ∷ ss) = b

-- `FormatRESPCommand`
unfoldable pub format_resp_command : (Bytes → Bytes) → RespCommand → Bytes
format_resp_command to_upper cmd =
    let known = if is_known_redis_command to_upper cmd.command then [] else codes " (custom)" in
    let name = if has_text cmd.command then cmd.command ++ known else cmd.raw in
    let more = if ltb 2 (length cmd.args) then codes "  ..." else [] in
    let key = if ltb 1 (length cmd.args) then codes "  " ++ (second cmd.args ++ more) else [] in
    codes "  " ++ (name ++ (key ++ (10 ∷ [])))

-- `FormatRESPResponse`
unfoldable pub format_resp_response : RespResponse → Bytes
format_resp_response resp =
    if resp.is_error
    then codes "  [" ++ (resp_type resp.kind ++ (codes "] ERR: " ++ (resp.value ++ (10 ∷ []))))
    else codes "  ["
      ++ (resp_type resp.kind ++ (codes "] " ++ (shorten 200 resp.value ++ (10 ∷ []))))

-- `FormatRESPURL`
unfoldable pub format_resp_url : RespCommand → Bytes
format_resp_url cmd =
    let key = if ltb 1 (length cmd.args) then 32 ∷ second cmd.args else [] in
    if has_text cmd.command then cmd.command ++ (key ++ (10 ∷ [])) else cmd.raw ++ (10 ∷ [])
