-- ===== src/Tcp/Assembler/Flush.antt =====
-- `FlushOlderThan`: which connections go, and that nothing panics; and that a packet touches the
-- entry of its own connection only.
use tcp_port.Tcp.Assembler.Dict
use tcp_port.Tcp.Assembler.{flush_older_than, flush_in}
use tcp_port.Tcp.Assembler.Valid.{IsValid}
use tcp_port.Tcp.Connection
use tcp_port.Tcp.Connection.{Connection}
use tcp_port.Tcp.Connection.Valid.{IsValid as IsValidConnection, flush_older_than-IsValid}
use tcp_port.Base.{
  All, Bool, Bool-cases, List, [], arith, equal, false, if◌then◌else◌, inl, inr, ltb, none, refl,
  some, ℕ, ◌||◌, ◌∷◌, ◌≡◌,
}
use tcp_port.Base.Outcome.{ok}
use tcp_port.Base.Slice.{Bytes}
use tcp_port.Tcp.Assembler.{Assembler, each, older_than, remove_all}
use tcp_port.Tcp.Assembler.Valid.{IsGood}
use tcp_port.Base.{equal_iff, subst, sym, ◌++◌, ◌∙◌}

each-ok :
    (cs : List Connection)
    → All IsValidConnection cs
    → (cs' : List Connection) × (each Connection.flush_older_than cs ≡ ok cs')
unfolding each
each-ok [] v = ([], refl)
each-ok (c ∷ cs) v =
    let (c', e) = flush_older_than-IsValid c v.0 in
    let (cs', es) = each-ok cs v.1 in (c' ∷ cs', rw (e, es))

older_than-valid :
    (t : ℕ) (d : List (Bytes × Connection))
    → Dict.Entries IsGood d
    → All IsValidConnection (older_than t d)
unfolding older_than
older_than-valid t [] g = tt
older_than-valid t ((k, c) ∷ d) g = elim (Bool-cases (ltb c.last_timestamp t)) [
  | inl old ↦ rw old (g.0.0, older_than-valid t d g.1)
  | inr new ↦ rw new (older_than-valid t d g.1)
]

remove_all-IsGood :
    (cs : List Connection) (d : List (Bytes × Connection))
    → Dict.Entries IsGood d
    → Dict.Entries IsGood (remove_all cs d)
unfolding remove_all
remove_all-IsGood [] d g = g
remove_all-IsGood (c ∷ cs) d g =
    remove_all-IsGood cs (Dict.remove c.key d) (Dict.remove-Entries IsGood c.key d g)

-- Whether the key of one of the connections is `k`.
has_key : Bytes → List Connection → Bool
has_key k [] = false
has_key k (c ∷ cs) = equal c.key k || has_key k cs

lookup-remove_all :
    (cs : List Connection) (k : Bytes) (d : List (Bytes × Connection))
    → Dict.lookup k (remove_all cs d) ≡ (if has_key k cs then none else Dict.lookup k d)
unfolding remove_all has_key
lookup-remove_all [] k d = refl
lookup-remove_all (c ∷ cs) k d =
    ground (arith, lookup-remove_all cs k (Dict.remove c.key d), Dict.lookup-remove c.key k d)

-- The map has one entry for a key.
abbrev pub HasUniqueKeys : List (Bytes × Connection) → Type 0
HasUniqueKeys [] = Unit
HasUniqueKeys ((k, c) ∷ d) = (Dict.lookup k d ≡ none) × HasUniqueKeys d

has_key-none :
    (t : ℕ) (k : Bytes) (d : List (Bytes × Connection))
    → Dict.Entries IsGood d
    → Dict.lookup k d ≡ none
    → has_key k (older_than t d) ≡ false
unfolding has_key older_than Dict.lookup
has_key-none t k [] g e = refl
has_key-none t k ((j, c) ∷ d) g e =
    ground (arith, has_key-none t k d g.1, equal_iff c.key k, equal_iff j k, g.0.1)

has_key-older_than :
    (t : ℕ) (k : Bytes) (d : List (Bytes × Connection))
    → Dict.Entries IsGood d
    → HasUniqueKeys d
    → (if has_key k (older_than t d) then none else Dict.lookup k d) ≡ elim (Dict.lookup k d) [
      | none ↦ none
      | some c ↦ if ltb c.last_timestamp t then none else some c
    ]
unfolding has_key older_than Dict.lookup
has_key-older_than t k [] g u = refl
has_key-older_than t k ((j, c) ∷ d) g u = ground (
  arith,
  has_key-older_than t k d g.1 u.1,
  has_key-none t k d g.1,
  equal_iff c.key k,
  equal_iff j k,
  g.0.1,
  u.0,
)

-- On a valid assembler `FlushOlderThan` does not panic and leaves a valid one. If the map has one
-- entry for a key, a connection stays exactly if its last packet is not older than `t`.
pub flush_older_than-lookup :
    (a : Assembler) (t : ℕ) (d : List (Bytes × Connection))
    → IsValid a
    → a.connection_dict ≡ some d
    → HasUniqueKeys d
    → (a' : Assembler) × (d' : List (Bytes × Connection)) × (flush_older_than a t ≡ ok a')
      × (a'.connection_dict ≡ some d')
      × IsValid a'
      × ((k : Bytes)
          → Dict.lookup k d' ≡ elim (Dict.lookup k d) [
            | none ↦ none
            | some c ↦ if ltb c.last_timestamp t then none else some c
          ])
unfolding flush_in
flush_older_than-lookup a t d v e u =
    let same : some v.dict ≡ some d = sym v.there ∙ e in
    let ed : v.dict ≡ d = cc in
    let g = subst (Dict.Entries IsGood) ed v.good in
    let conns = older_than t d in
    let (flushed, done_all) = each-ok conns (older_than-valid t d g) in
    (
      record a { connection_dict = some (remove_all conns d); ended = a.ended ++ flushed },
      remove_all conns d,
      simp (e, done_all),
      refl,
      record { dict = remove_all conns d; there = refl; good = remove_all-IsGood conns d g },
      λ k. lookup-remove_all conns k d ∙ has_key-older_than t k d g u,
    )
