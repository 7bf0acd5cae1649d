-- ===== src/ConnectionManager/Variables.antt =====
-- src/upnp_connmgr.c: the numbers of the service's state variables (`connmgr_variable`, without the
-- prefix CONNMGR_VAR_), and their table `connmgr_var_meta` with what it names.
use gmrender_resurrect.Prelude.{ℕ, Bool, true, false, Option, none, some, List, [], ◌∷◌}
use gmrender_resurrect.Prelude.Text.{Bytes, codes}
use gmrender_resurrect.VariableContainer.{VarMeta, ParamDatatype, string, i4}

-- `connmgr_variable`
pub data ConnectionVariable : Type 0 where
  aat_conn_mgr sink_proto_info aat_conn_status aat_avt_id aat_dir aat_rcs_id aat_proto_info
        aat_conn_id src_proto_info cur_conn_ids :
      ConnectionVariable

abbrev pub variable_num : ConnectionVariable → ℕ
variable_num aat_conn_mgr = 0
variable_num sink_proto_info = 1
variable_num aat_conn_status = 2
variable_num aat_avt_id = 3
variable_num aat_dir = 4
variable_num aat_rcs_id = 5
variable_num aat_proto_info = 6
variable_num aat_conn_id = 7
variable_num src_proto_info = 8
variable_num cur_conn_ids = 9

-- CONNMGR_VAR_COUNT
abbrev pub variable_count : ℕ
variable_count = 10

abbrev pub connstatus_values : List Bytes
connstatus_values =
    codes "OK"
    ∷ codes "ContentFormatMismatch"
    ∷ codes "InsufficientBandwidth"
    ∷ codes "UnreliableChannel"
    ∷ codes "Unknown"
    ∷ []

abbrev pub direction_values : List Bytes
direction_values = codes "Input" ∷ codes "Output" ∷ []

abbrev entry :
    ConnectionVariable → Bytes → Bytes → Bool → ParamDatatype → Option (List Bytes) → VarMeta
entry v name default_value sendevents datatype allowed_values = record {
  id = variable_num v;
  name = some name;
  default_value = some default_value;
  sendevents = sendevents;
  datatype = datatype;
  allowed_values = allowed_values;
  allowed_range = none;
}

-- `connmgr_var_meta`, up to its end mark, in the order of the source.
unfoldable pub connmgr_var_meta : List VarMeta
connmgr_var_meta =
    entry src_proto_info (codes "SourceProtocolInfo") (codes "") true string none
    ∷ entry sink_proto_info (codes "SinkProtocolInfo") (codes "http-get:*:audio/mpeg:*") true string
        none
    ∷ entry cur_conn_ids (codes "CurrentConnectionIDs") (codes "0") true string none
    ∷ entry aat_conn_status (codes "A_ARG_TYPE_ConnectionStatus") (codes "Unknown") false string
        (some connstatus_values)
    ∷ entry aat_conn_mgr (codes "A_ARG_TYPE_ConnectionManager") (codes "/") false string none
    ∷ entry aat_dir (codes "A_ARG_TYPE_Direction") (codes "Input") false string
        (some direction_values)
    ∷ entry aat_proto_info (codes "A_ARG_TYPE_ProtocolInfo") (codes ":::") false string none
    ∷ entry aat_conn_id (codes "A_ARG_TYPE_ConnectionID") (codes "-1") false i4 none
    ∷ entry aat_avt_id (codes "A_ARG_TYPE_AVTransportID") (codes "0") false i4 none
    ∷ entry aat_rcs_id (codes "A_ARG_TYPE_RcsID") (codes "0") false i4 none
    ∷ []
