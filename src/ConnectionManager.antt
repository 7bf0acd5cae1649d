-- ===== src/ConnectionManager.antt =====
-- src/upnp_connmgr.c: the ConnectionManager service, but for its list of MIME types: the commands
-- (`connmgr_cmd`, without the prefix CONNMGR_CMD_), their tables, the handlers and the service.
pub mod Variables
pub mod Answers
pub mod MimeTypes
use gmrender_resurrect.Prelude.{Option, none, some, List, [], ◌∷◌, if◌then◌else◌}
use gmrender_resurrect.Prelude.Text.{Bytes, codes, str_eq}
use gmrender_resurrect.Prelude.Int.{ℤ, pos, negsuc}
use gmrender_resurrect.Prelude.Run.{Run, ◌>>=◌, ◌>>◌, pure, gets}
use gmrender_resurrect.XmlDoc.{Ixml}
use gmrender_resurrect.VariableContainer
use gmrender_resurrect.VariableContainer.{Container}
use gmrender_resurrect.ActionEvent.{
  Upnp, Session, upnp_append_variable, upnp_add_response, upnp_get_string,
}
use gmrender_resurrect.Arguments.{Argument, in_arg, out_arg}
use gmrender_resurrect.ConnectionManager.Variables.{
  ConnectionVariable, variable_num, variable_count, connmgr_var_meta, aat_conn_mgr, sink_proto_info,
  aat_conn_status, aat_avt_id, aat_dir, aat_rcs_id, aat_proto_info, aat_conn_id, src_proto_info,
  cur_conn_ids,
}

-- `connmgr_cmd`
pub data ConnectionCmd : Type 0 where
  getcurrentconnectionids setcurrentconnectioninfo getprotocolinfo prepareforconnection :
      ConnectionCmd

-- `argument_list`
unfoldable pub argument_list : ConnectionCmd → List (Argument ConnectionVariable)
argument_list getcurrentconnectionids = out_arg (codes "ConnectionIDs") cur_conn_ids ∷ []
argument_list setcurrentconnectioninfo =
    in_arg (codes "ConnectionID") aat_conn_id
    ∷ out_arg (codes "RcsID") aat_rcs_id
    ∷ out_arg (codes "AVTransportID") aat_avt_id
    ∷ out_arg (codes "ProtocolInfo") aat_proto_info
    ∷ out_arg (codes "PeerConnectionManager") aat_conn_mgr
    ∷ out_arg (codes "PeerConnectionID") aat_conn_id
    ∷ out_arg (codes "Direction") aat_dir
    ∷ out_arg (codes "Status") aat_conn_status
    ∷ []
argument_list getprotocolinfo =
    out_arg (codes "Source") src_proto_info ∷ out_arg (codes "Sink") sink_proto_info ∷ []
argument_list prepareforconnection =
    in_arg (codes "RemoteProtocolInfo") aat_proto_info
    ∷ in_arg (codes "PeerConnectionManager") aat_conn_mgr
    ∷ in_arg (codes "PeerConnectionID") aat_conn_id
    ∷ in_arg (codes "Direction") aat_dir
    ∷ out_arg (codes "ConnectionID") aat_conn_id
    ∷ out_arg (codes "AVTransportID") aat_avt_id
    ∷ out_arg (codes "RcsID") aat_rcs_id
    ∷ []

-- The names in `connmgr_actions`, and the commands in their order.
unfoldable pub action_name : ConnectionCmd → Bytes
action_name getcurrentconnectionids = codes "GetCurrentConnectionIDs"
action_name setcurrentconnectioninfo = codes "GetCurrentConnectionInfo"
action_name getprotocolinfo = codes "GetProtocolInfo"
action_name prepareforconnection = codes "PrepareForConnection"

abbrev pub all_commands : List ConnectionCmd
all_commands =
    getcurrentconnectionids ∷ setcurrentconnectioninfo ∷ getprotocolinfo ∷ prepareforconnection ∷ []

-- `find_action` on `connmgr_actions`; its loop ends at the entry without a name.
pub find_in : Bytes → List ConnectionCmd → Option ConnectionCmd
find_in name [] = none
find_in name (cmd ∷ rest) =
    let later = find_in name rest in if str_eq (action_name cmd) name then some cmd else later

unfoldable pub find_action : Bytes → Option ConnectionCmd
unfolding find_in action_name
find_action name = find_in name all_commands

-- `upnp_connmgr_get_service` at its first call: the variables that it makes.
unfoldable pub created_container : Option Container
unfolding VariableContainer.new
created_container = VariableContainer.new variable_count connmgr_var_meta

module _ ⦃x : Ixml⦄ ⦃u : Upnp⦄ {S : Type 0} where
  unfoldable pub append : ConnectionVariable → Bytes → Run (Session S) (Unit {0})
  unfolding upnp_append_variable
  append varnum paramname = upnp_append_variable (variable_num varnum) paramname

  unfoldable pub get_protocol_info : Run (Session S) ℤ
  unfolding append
  get_protocol_info = do
    append src_proto_info (codes "Source")
    append sink_proto_info (codes "Sink")
    gets (λ s. s.event.status)

  unfoldable pub get_current_conn_ids : Run (Session S) ℤ
  unfolding upnp_add_response
  get_current_conn_ids = do upnp_add_response (codes "ConnectionIDs") (codes "0"); pure (negsuc 0)

  unfoldable pub prepare_for_connection : Run (Session S) ℤ
  unfolding append
  prepare_for_connection = do
    append cur_conn_ids (codes "ConnectionID")
    append aat_avt_id (codes "AVTransportID")
    append aat_rcs_id (codes "RcsID")
    pure (pos 0)

  unfoldable pub tell_conn_info : Run (Session S) ℤ
  unfolding append
  tell_conn_info = do
    append aat_rcs_id (codes "RcsID")
    append aat_avt_id (codes "AVTransportID")
    append aat_proto_info (codes "ProtocolInfo")
    append aat_conn_mgr (codes "PeerConnectionManager")
    append aat_conn_id (codes "PeerConnectionID")
    append aat_dir (codes "Direction")
    append aat_conn_status (codes "Status")
    pure (pos 0)

  abbrev pub with_id : Option Bytes → Run (Session S) ℤ
  with_id none = pure (negsuc 0)
  with_id (some _) = tell_conn_info

  unfoldable pub get_current_conn_info : Run (Session S) ℤ
  unfolding upnp_get_string tell_conn_info
  get_current_conn_info = do value ← upnp_get_string (codes "ConnectionID"); with_id value

  -- The callbacks in `connmgr_actions`.
  unfoldable pub handler : ConnectionCmd → Run (Session S) ℤ
  handler getcurrentconnectionids = get_current_conn_ids
  handler setcurrentconnectioninfo = get_current_conn_info
  handler getprotocolinfo = get_protocol_info
  handler prepareforconnection = prepare_for_connection
