-- ===== src/Zookeeper/Format.antt =====
-- zookeeperport/printer.go.
use tcp_port.Zookeeper.{ZkRequest, ZkResponse}
use tcp_port.Base.{[], if◌then◌else◌, ◌++◌, ◌∷◌}
use tcp_port.Base.Int.{eq_ℤ, pos, ℤ}
use tcp_port.Base.Slice.{Bytes}
use tcp_port.Base.Text.{codes, dec_ℤ}
use tcp_port.Zookeeper.{hex_ℤ}

abbrev ids : ℤ → Bytes
ids xid = codes "  XID: " ++ dec_ℤ xid

abbrev path_line : Bytes → Bytes
path_line [] = []
path_line (c ∷ cs) = codes "  Path: " ++ ((c ∷ cs) ++ (10 ∷ []))

-- `FormatZKRequest`
unfoldable pub format_zk_request : ZkRequest → Bytes
format_zk_request req =
    codes "  "
    ++ (req.summary
        ++ (10
            ∷ (path_line req.path
                ++ (ids req.xid ++ (codes "  Type: " ++ (req.op_name ++ (10 ∷ [])))))))

abbrev error_line : ℤ → Bytes
error_line err = if eq_ℤ err (pos 0) then [] else codes "  Error: " ++ (dec_ℤ err ++ (10 ∷ []))

-- `FormatZKResponse`
unfoldable pub format_zk_response : ZkResponse → Bytes
format_zk_response resp =
    codes "  "
    ++ (resp.summary
        ++ (10
            ∷ (error_line resp.err
                ++ (ids resp.xid
                    ++ (codes "  ZXID: 0x"
                        ++ (hex_ℤ resp.zxid
                            ++ (codes "  Type: " ++ (resp.op_name ++ (10 ∷ [])))))))))

abbrev behind_name : Bytes → Bytes
behind_name [] = 10 ∷ []
behind_name (c ∷ cs) = 32 ∷ ((c ∷ cs) ++ (10 ∷ []))

-- `FormatZKURL`
unfoldable pub format_zk_url : ZkRequest → Bytes
format_zk_url req = req.op_name ++ behind_name req.path
