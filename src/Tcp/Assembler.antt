-- ===== src/Tcp/Assembler.antt =====
-- `TCPAssembler` of tcpport/assembler.go. Its map is an association list with one entry for a key,
-- and `none` once `FinishAll` has set it to nil. A connection is shared with the goroutine that
-- handles it, so what happens to it is written back to the map. The goroutines that are started,
-- and the connections that are finished and no longer in the map, are kept as lists.
pub mod Dict
pub mod Valid
pub mod Flush
use tcp_port.Base.Outcome.{◌>>=◌}
use tcp_port.Tcp.Connection
use tcp_port.Tcp.Connection.{Connection, Endpoint}
use tcp_port.Base.{
  Bool, List, Option, [], equal, false, if◌then◌else◌, ltb, none, not, some, true, ℕ, ◌&&◌, ◌++◌,
  ◌==◌, ◌||◌, ◌∷◌,
}
use tcp_port.Base.Outcome.{Outcome, ok, panic}
use tcp_port.Base.Slice.{Bytes}
use tcp_port.Base.Text.{less}
use tcp_port.Tcp.Packet.{Packet}

pub record Assembler : Type 0 where
  pub connection_dict : Option (List (Bytes × Connection))
  pub filter_ip : Bytes
  pub filter_port : ℕ
  pub detector : Option (Bytes → Bool)
  pub started : List (Endpoint × Endpoint × Bytes)
  pub ended : List Connection

-- The key of the connection between two endpoints.
unfoldable pub connection_key : Endpoint → Endpoint → Bytes
connection_key src dst =
    let s = Connection.string_of src in
    let d = Connection.string_of dst in if less s d then s ++ (b'-' ∷ d) else d ++ (b'-' ∷ s)

-- The two early returns of `Assemble`.
unfoldable pub is_filtered : Assembler → Endpoint → Endpoint → Bool
is_filtered a src dst =
    not (equal a.filter_ip []) && not (equal src.ip a.filter_ip) && not (equal dst.ip a.filter_ip)
    || not (a.filter_port == 0)
      && not (src.port == a.filter_port)
      && not (dst.port == a.filter_port)

abbrev pub detects : Option (Bytes → Bool) → Bytes → Bool
detects none payload = false
detects (some d) payload = d payload

unfoldable pub creates_new : Assembler → Packet → Bool
creates_new a tcp = tcp.is_syn && not tcp.is_ack || detects a.detector tcp.payload

abbrev with_dict : Assembler → List (Bytes × Connection) → Assembler
with_dict a d = record a { connection_dict = some d }

-- `retrieveConnection` with what the map holds for the key.
unfoldable pub retrieve_found :
    Assembler
    → List (Bytes × Connection)
    → Endpoint
    → Endpoint
    → Bytes
    → Bool
    → Option Connection
    → Option Connection × Assembler
retrieve_found a d src dst key init (some conn) = (some conn, a)
retrieve_found a d src dst key false none = (none, a)
retrieve_found a d src dst key true none =
    let conn = Connection.new_tcp_connection key in
    (
      some conn,
      record a {
        connection_dict = some (Dict.insert key conn d);
        started = a.started ++ (src, dst, key) ∷ [];
      },
    )

-- A nil map has no entries, and to write to it panics.
unfoldable pub retrieve_in :
    Option (List (Bytes × Connection))
    → Assembler
    → Endpoint
    → Endpoint
    → Bytes
    → Bool
    → Outcome (Option Connection × Assembler)
retrieve_in none a src dst key true = panic
retrieve_in none a src dst key false = ok (none, a)
retrieve_in (some d) a src dst key init =
    ok (retrieve_found a d src dst key init (Dict.lookup key d))

abbrev pub retrieve_connection :
    Assembler → Endpoint → Endpoint → Bytes → Bool → Outcome (Option Connection × Assembler)
retrieve_connection a = retrieve_in a.connection_dict a

abbrev pub on_dict : (List (Bytes × Connection) → List (Bytes × Connection)) → Assembler → Assembler
on_dict f a = record a {
  connection_dict = elim a.connection_dict [ none ↦ none | some d ↦ some (f d) ];
}

unfoldable pub delete_connection : Assembler → Bytes → Assembler
delete_connection a key = on_dict (Dict.remove key) a

-- `Assemble` behind the retrieval: the packet goes to the connection, which is dropped and
-- finished once both of its directions are closed.
unfoldable pub deliver_to :
    Assembler → Endpoint → Packet → ℕ → Bytes → Connection → Outcome Assembler
deliver_to a src tcp timestamp key conn = do
  conn' ← Connection.on_receive conn src tcp timestamp
  let a' = on_dict (Dict.insert key conn') a
  if Connection.is_closed conn'
      then Connection.finish conn' >>= (λ c.
        let a'' = delete_connection a' key in ok (record a'' { ended = a.ended ++ c ∷ [] }))
      else ok a'

unfoldable pub deliver_if :
    Endpoint → Packet → ℕ → Bytes → Option Connection × Assembler → Outcome Assembler
deliver_if src tcp timestamp key (none, a) = ok a
deliver_if src tcp timestamp key (some conn, a) = deliver_to a src tcp timestamp key conn

unfoldable pub assemble : Assembler → Endpoint → Endpoint → Packet → ℕ → Outcome Assembler
assemble a src dst tcp timestamp =
    if is_filtered a src dst
    then ok a
    else (let key = connection_key src dst in
        retrieve_connection a src dst key (creates_new a tcp) >>= deliver_if src tcp timestamp key)

-- `f` on each connection in turn.
pub each : (Connection → Outcome Connection) → List Connection → Outcome (List Connection)
each f [] = ok []
each f (c ∷ cs) = do c' ← f c; cs' ← each f cs; ok (c' ∷ cs')

-- The connections whose last packet is older than `t`.
pub older_than : ℕ → List (Bytes × Connection) → List Connection
older_than t [] = []
older_than t ((key, c) ∷ d) = if ltb c.last_timestamp t then c ∷ older_than t d else older_than t d

pub remove_all : List Connection → List (Bytes × Connection) → List (Bytes × Connection)
remove_all [] d = d
remove_all (c ∷ cs) d = remove_all cs (Dict.remove c.key d)

unfoldable pub flush_in : Option (List (Bytes × Connection)) → Assembler → ℕ → Outcome Assembler
unfolding each older_than remove_all
flush_in none a t = ok a
flush_in (some d) a t = do
  let conns = older_than t d
  flushed ← each Connection.flush_older_than conns
  ok (record a { connection_dict = some (remove_all conns d); ended = a.ended ++ flushed })

abbrev pub flush_older_than : Assembler → ℕ → Outcome Assembler
flush_older_than a = flush_in a.connection_dict a

abbrev values : List (Bytes × Connection) → List Connection
values [] = []
values ((key, c) ∷ d) = c ∷ values d

unfoldable pub finish_in : Option (List (Bytes × Connection)) → Assembler → Outcome Assembler
unfolding each
finish_in none a = ok a
finish_in (some d) a = do
  finished ← each Connection.finish (values d)
  ok (record a { connection_dict = none; ended = a.ended ++ finished })

abbrev pub finish_all : Assembler → Outcome Assembler
finish_all a = finish_in a.connection_dict a
