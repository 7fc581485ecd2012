-- ===== src/Rocketmq.antt =====
-- rocketmqport/remoting_protocol.go. `unmarshal` stands for `json.Unmarshal(text, &cmd)`: it gives
-- what the pointer `cmd` is afterwards, `none` for nil, its errors being ignored by the code.
use tcp_port.Base.Outcome.{◌>>=◌}
pub mod Reader
pub mod Frames
pub mod Format
use tcp_port.Base.{
  Bool, List, Option, [], false, if◌then◌else◌, leb, length, ltb, none, some, take, ℕ, ◌&&◌, ◌*◌,
  ◌++◌, ◌+◌, ◌-◌, ◌||◌, ◌∷◌,
}
use tcp_port.Base.Int.{negsuc, pos, ℤ}
use tcp_port.Base.Outcome.{Outcome, errorf, fail, ok, panic}
use tcp_port.Base.Reader.{Read, lift, read_full, throw}
use tcp_port.Base.Slice.{Bytes, be32, cut, slice, slice_from}
use tcp_port.Base.Text.{codes, dec, dec_ℤ, find_name, hex_byte}

pub record RemotingCommand : Type 0 where
  pub frame_length : ℕ
  pub header_length : ℕ
  pub header_json : Bytes
  pub body : Bytes
  pub code : ℤ
  pub language : Bytes
  pub version : ℤ
  pub opaque_id : ℤ
  pub flag : ℤ
  pub remark : Bytes
  pub ext_fields : List (Bytes × Bytes)
  pub body_preview : Bytes

unfoldable pub request_code_names : List (ℕ × Bytes)
request_code_names =
    (10, codes "SEND_MESSAGE")
    ∷ (11, codes "PULL_MESSAGE")
    ∷ (12, codes "QUERY_MESSAGE")
    ∷ (13, codes "QUERY_BROKER_OFFSET")
    ∷ (14, codes "QUERY_CONSUMER_OFFSET")
    ∷ (15, codes "UPDATE_CONSUMER_OFFSET")
    ∷ (16, codes "UPDATE_AND_CREATE_TOPIC")
    ∷ (17, codes "GET_ALL_TOPIC_CONFIG")
    ∷ (18, codes "GET_TOPIC_CONFIG_LIST")
    ∷ (19, codes "GET_TOPIC_NAME_LIST")
    ∷ (20, codes "UPDATE_BROKER_CONFIG")
    ∷ (21, codes "GET_BROKER_CONFIG")
    ∷ (22, codes "TRIGGER_DELETE_FILES")
    ∷ (23, codes "GET_BROKER_RUNTIME_INFO")
    ∷ (24, codes "SEARCH_OFFSET_BY_TIMESTAMP")
    ∷ (25, codes "GET_MAX_OFFSET")
    ∷ (26, codes "GET_MIN_OFFSET")
    ∷ (27, codes "GET_EARLIEST_MSG_STORETIME")
    ∷ (28, codes "QUERY_MESSAGE_BY_KEY")
    ∷ (29, codes "QUERY_MESSAGE_BY_UNIQUE_KEY")
    ∷ (30, codes "PULL_KV_CONFIG")
    ∷ (31, codes "QUERY_DATA_VERSION")
    ∷ (32, codes "UPDATE_AND_CREATE_SUBSCRIPTIONGROUP")
    ∷ (33, codes "GET_ALL_SUBSCRIPTIONGROUP_CONFIG")
    ∷ (34, codes "GET_TOPIC_STATS_INFO")
    ∷ (35, codes "GET_CONSUMER_LIST_BY_GROUP")
    ∷ (36, codes "GET_SUBSCRIPTIONGROUP_CONFIG")
    ∷ (37, codes "QUERY_CONSUME_TIME_SPAN")
    ∷ (38, codes "GET_BROKER_CONSUME_STATS")
    ∷ (39, codes "INVOKE_BROKER_TO_RESET_OFFSET")
    ∷ (40, codes "GET_CONSUMER_RUNNING_INFO")
    ∷ (41, codes "QUERY_CORRECTION_OFFSET")
    ∷ (42, codes "CONSUME_MESSAGE_DIRECTLY")
    ∷ (43, codes "PULL_MESSAGE")
    ∷ (44, codes "QUERY_CONSUMER_OFFSET")
    ∷ (45, codes "VIEW_MESSAGE_BY_ID")
    ∷ (46, codes "QUERY_MESSAGES")
    ∷ (47, codes "GET_HOME_TOPIC_ROUTE_INFO")
    ∷ (48, codes "GET_MESSAGE_STORE_TIME")
    ∷ (49, codes "QUERY_BROKER_OFFSET")
    ∷ (50, codes "HEART_BEAT")
    ∷ (51, codes "UNREGISTER_CLIENT")
    ∷ (52, codes "REGISTER_CLIENT")
    ∷ (53, codes "CONSUMER_SEND_MSG_BACK")
    ∷ (54, codes "END_TRANSACTION")
    ∷ (55, codes "GET_CONSUMER_LIST_BY_GROUP")
    ∷ (56, codes "CHECK_TRANSACTION_STATE")
    ∷ (57, codes "NOTIFY_CONSUMER_IDS_CHANGED")
    ∷ (58, codes "LOCK_BATCH_MQ")
    ∷ (59, codes "UNLOCK_BATCH_MQ")
    ∷ (60, codes "GET_ALL_CONSUMER_OFFSET")
    ∷ (61, codes "GET_ALL_DELAY_OFFSET")
    ∷ (62, codes "PUT_KV_CONFIG")
    ∷ (63, codes "DELETE_KV_CONFIG")
    ∷ (64, codes "REGISTER_FILTER_SERVER")
    ∷ (65, codes "REGISTER_MESSAGE_FILTER_CLASS")
    ∷ (66, codes "QUERY_TOPIC_CONSUME_BY_WHO")
    ∷ (67, codes "DELETE_TOPIC_IN_BROKER")
    ∷ (68, codes "DELETE_SUBSCRIPTIONGROUP")
    ∷ (69, codes "GET_CONSUME_STATS")
    ∷ (70, codes "GET_PRODUCER_CONNECTION_LIST")
    ∷ (71, codes "GET_CONSUMER_CONNECTION_LIST")
    ∷ (72, codes "VC_CHANNEL")
    ∷ (73, codes "GET_PRODUCER_CONNECTION_LIST")
    ∷ (74, codes "GET_CONSUMER_CONNECTION_LIST")
    ∷ (100, codes "REGISTER_BROKER")
    ∷ (101, codes "UNREGISTER_BROKER")
    ∷ (102, codes "GET_ROUTEINTO_BY_TOPIC")
    ∷ (103, codes "GET_BROKER_CLUSTER_INFO")
    ∷ (104, codes "WIPE_WRITE_PERM_OF_BROKER")
    ∷ (105, codes "GET_ALL_TOPIC_LIST_FROM_NAMESERVER")
    ∷ (106, codes "DELETE_TOPIC_IN_NAMESRV")
    ∷ (107, codes "REGISTER_TOPIC_IN_NAMESRV")
    ∷ (108, codes "GET_KVLIST_BY_NAMESPACE")
    ∷ (109, codes "GET_TOPICS_BY_CLUSTER")
    ∷ (110, codes "GET_SYSTEM_TOPIC_LIST_FROM_NS")
    ∷ (111, codes "GET_UNIT_TOPIC_LIST")
    ∷ (112, codes "GET_HAS_UNIT_SUB_TOPIC_LIST")
    ∷ (113, codes "GET_HAS_UNIT_SUB_UNUNIT_TOPIC_LIST")
    ∷ (114, codes "UPDATE_NAMESRV_CONFIG")
    ∷ (115, codes "GET_NAMESRV_CONFIG")
    ∷ (201, codes "ACTIVATE_NAMESERVER")
    ∷ (202, codes "DEACTIVATE_NAMESERVER")
    ∷ (203, codes "BROKER_HEARTBEAT")
    ∷ (900, codes "REGISTER_MESSAGE_FILTER_CLASS")
    ∷ []

unfoldable pub request_code_name : ℤ → Bytes
unfolding request_code_names
request_code_name (pos code) = elim (find_name code request_code_names) [
  | none ↦ codes "UNKNOWN(" ++ (dec code ++ codes ")")
  | some name ↦ name
]
request_code_name (negsuc n) = codes "UNKNOWN(" ++ (dec_ℤ (negsuc n) ++ codes ")")

abbrev pub min_frame_size : ℕ
min_frame_size = 10

abbrev pub max_frame_size : ℕ
max_frame_size = 100 * 1024 * 1024

-- `%x` of a byte slice.
unfoldable pub hex_bytes : Bytes → Bytes
hex_bytes [] = []
hex_bytes (b ∷ bs) = hex_byte b ++ hex_bytes bs

unfoldable pub preview : Bytes → Bytes
unfolding hex_bytes
preview body =
    if ltb 200 (length body) then hex_bytes (take 200 body) ++ codes "..." else hex_bytes body

unfoldable pub new_command : ℕ → ℕ → Bytes → Bytes → RemotingCommand
new_command frame_length header_length header_json body = record {
  frame_length = frame_length;
  header_length = header_length;
  header_json = header_json;
  body = body;
  code = pos 0;
  language = [];
  version = pos 0;
  opaque_id = pos 0;
  flag = pos 0;
  remark = [];
  ext_fields = [];
  body_preview = [];
}

-- The body preview is set through `cmd`, which panics if it is nil.
unfoldable pub set_preview : Bytes → Option RemotingCommand → Outcome (Option RemotingCommand)
unfolding preview
set_preview [] cmd = ok cmd
set_preview (b ∷ bs) none = panic
set_preview (b ∷ bs) (some cmd) = ok (some (record cmd { body_preview = preview (b ∷ bs) }))

module _ (unmarshal : Bytes → RemotingCommand → Option RemotingCommand) where
  -- The frame behind its length.
  unfoldable pub parse_frame : ℕ → Bytes → Outcome (Option RemotingCommand)
  unfolding new_command set_preview
  parse_frame frame_len remaining =
      let header_len = be32 remaining 0 in
      let has_body = ltb (header_len + 4) frame_len in
      if ltb (length remaining) 4
      then fail (errorf (codes "frame too short for header length"))
      else if ltb header_len 4 || ltb (length remaining + 4) header_len
      then fail (errorf (codes "invalid header length: " ++ dec header_len))
      else (slice remaining 4 header_len >>= λ header_json.
          (if has_body then slice_from remaining header_len else ok []) >>= λ body.
          set_preview body
            (unmarshal header_json (new_command frame_len header_len header_json body)))
