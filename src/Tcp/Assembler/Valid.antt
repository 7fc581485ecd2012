-- ===== src/Tcp/Assembler/Valid.antt =====
-- The assembler never panics on a packet, and knows only live connections under their own keys.
use tcp_port.Base.Outcome.{◌>>=◌}
use tcp_port.Tcp.Assembler.Dict
use tcp_port.Tcp.Connection
use tcp_port.Tcp.Connection.{Connection}
use tcp_port.Tcp.Connection.Valid.{IsValid as IsValidConnection}
use tcp_port.Base.{
  Bool, Bool-cases, List, Option, [], arith, false, inl, inr, none, refl, some, true, ℕ, ◌++◌, ◌∙◌,
  ◌∷◌, ◌≡◌,
}
use tcp_port.Base.Outcome.{Outcome, ok}
use tcp_port.Base.Slice.{Bytes}
use tcp_port.Base.Text.{less_asym, less_total}
use tcp_port.Tcp.Assembler.{
  Assembler, assemble, connection_key, creates_new, delete_connection, deliver_if, deliver_to,
  is_filtered, retrieve_connection, retrieve_found, retrieve_in,
}
use tcp_port.Tcp.Connection.{Endpoint}
use tcp_port.Tcp.Connection.Valid.{finish-IsValid, new_tcp_connection-IsValid, on_receive-Received}
use tcp_port.Tcp.Packet.{Packet}

-- A connection that the map may hold under `key`.
abbrev pub IsGood : Bytes → Connection → Type 0
IsGood key c = IsValidConnection c × (c.key ≡ key) × (Connection.is_closed c ≡ false)

pub record IsValid (a : Assembler) : Type 0 where
  pub dict : List (Bytes × Connection)
  pub there : a.connection_dict ≡ some dict
  pub good : Dict.Entries IsGood dict

abbrev pub Succeeds : Outcome Assembler → Type 0
Succeeds out = (a' : Assembler) × (out ≡ ok a') × IsValid a'

-- The map behind `deliver_to`: the connection is gone if it is closed, and kept if not.
delivered-IsValid :
    (a : Assembler) (src : Endpoint) (tcp : Packet) (timestamp : ℕ) (key : Bytes)
    (conn : Connection)
    → IsValid a
    → IsGood key conn
    → Succeeds (deliver_to a src tcp timestamp key conn)
unfolding deliver_to delete_connection
delivered-IsValid a src tcp timestamp key conn v g =
    let t = on_receive-Received conn src tcp timestamp g.0 in
    elim (Bool-cases (Connection.is_closed t.next)) [
      | inl over ↦
          let (fin, e) = finish-IsValid t.next t.valid in
          (
            record a {
              connection_dict = some (Dict.remove key (Dict.insert key t.next v.dict));
              ended = a.ended ++ fin ∷ [];
            },
            rw (t.returns, over, e, v.there),
            record {
              dict = Dict.remove key (Dict.insert key t.next v.dict);
              there = refl;
              good =
                  rw (Dict.remove-insert key t.next v.dict)
                    (Dict.remove-Entries IsGood key v.dict v.good);
            },
          )
      | inr alive ↦ (
        record a { connection_dict = some (Dict.insert key t.next v.dict) },
        rw (t.returns, alive, v.there),
        record {
          dict = Dict.insert key t.next v.dict;
          there = refl;
          good =
              Dict.insert-Entries IsGood key t.next v.dict v.good
                (t.valid, t.same_key ∙ g.1, alive);
        },
      )
    ]

new-IsGood : (key : Bytes) → IsGood key (Connection.new_tcp_connection key)
new-IsGood key = (
  new_tcp_connection-IsValid key,
  unfold Connection.new_tcp_connection in refl,
  unfold Connection.new_tcp_connection Connection.is_closed in refl,
)

retrieved-IsValid :
    (a : Assembler) (src dst : Endpoint) (tcp : Packet) (timestamp : ℕ) (key : Bytes) (init : Bool)
    → IsValid a
    → Succeeds (retrieve_connection a src dst key init >>= deliver_if src tcp timestamp key)
unfolding retrieve_in deliver_if retrieve_found
retrieved-IsValid a src dst tcp timestamp key init v =
    simp v.there (found_cases (Dict.lookup key v.dict) refl init)
  where
    found_cases :
        (o : Option Connection)
        → Dict.lookup key v.dict ≡ o
        → (init : Bool)
        → Succeeds (deliver_if src tcp timestamp key (retrieve_found a v.dict src dst key init o))
    found_cases (some conn) e init =
        delivered-IsValid a src tcp timestamp key conn v
          (Dict.lookup-Entries IsGood key v.dict v.good e)
    found_cases none e false = (a, refl, v)
    found_cases none e true =
        let conn = Connection.new_tcp_connection key in
        delivered-IsValid
          (record a {
            connection_dict = some (Dict.insert key conn v.dict);
            started = a.started ++ (src, dst, key) ∷ [];
          })
          src tcp timestamp key conn
          (record {
            dict = Dict.insert key conn v.dict;
            there = refl;
            good = Dict.insert-Entries IsGood key conn v.dict v.good (new-IsGood key);
          })
          (new-IsGood key)

-- On a valid assembler, whose map holds only live connections, none with both directions closed,
-- each under its own key, `Assemble` does not panic, whatever the packet, and leaves a valid
-- assembler: no send on a closed channel, no nil packet in a window, no closed connection kept.
pub assemble-IsValid :
    (a : Assembler) (src dst : Endpoint) (tcp : Packet) (timestamp : ℕ)
    → IsValid a
    → Succeeds (assemble a src dst tcp timestamp)
unfolding assemble
assemble-IsValid a src dst tcp timestamp v = elim (Bool-cases (is_filtered a src dst)) [
  | inl out ↦ rw out (a, refl, v)
  | inr in_scope ↦
      rw in_scope
        (retrieved-IsValid a src dst tcp timestamp (connection_key src dst) (creates_new a tcp) v)
]

-- The two directions of a connection have the same key.
connection_key_comm : (src dst : Endpoint) → connection_key src dst ≡ connection_key dst src
unfolding connection_key
connection_key_comm src dst = ground (
  arith,
  less_asym (Connection.string_of src) (Connection.string_of dst),
  less_total (Connection.string_of src) (Connection.string_of dst),
)
