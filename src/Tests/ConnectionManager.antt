-- ===== src/Tests/ConnectionManager.antt =====
-- The connection manager on the service as it is created.
use gmrender_resurrect.Prelude.{◌≡◌, refl, none, some, [], ◌∷◌}
use gmrender_resurrect.Prelude.Text.{Bytes, codes}
use gmrender_resurrect.Prelude.Int.{pos}
use gmrender_resurrect.VariableContainer
use gmrender_resurrect.VariableContainer.{Container, create_sorted_meta, insert_meta}
use gmrender_resurrect.ActionEvent.{Session, arguments, success}
use gmrender_resurrect.Tests.{recorder, listing}
use gmrender_resurrect.ConnectionManager.Variables.{
  ConnectionVariable, variable_num, connmgr_var_meta, aat_conn_mgr, sink_proto_info,
  aat_conn_status, aat_avt_id, aat_dir, aat_rcs_id, aat_proto_info, aat_conn_id, src_proto_info,
  cur_conn_ids,
}
use gmrender_resurrect.ConnectionManager.{prepareforconnection, handler}
use gmrender_resurrect.ConnectionManager.Answers.{outcome, handler-outcome}

abbrev default : ConnectionVariable → Bytes
default aat_conn_mgr = codes "/"
default sink_proto_info = codes "http-get:*:audio/mpeg:*"
default aat_conn_status = codes "Unknown"
default aat_avt_id = codes "0"
default aat_dir = codes "Input"
default aat_rcs_id = codes "0"
default aat_proto_info = codes ":::"
default aat_conn_id = codes "-1"
default src_proto_info = codes ""
default cur_conn_ids = codes "0"

abbrev start_container : Container
start_container = record {
  variable_num = 10;
  vars = create_sorted_meta connmgr_var_meta;
  values =
      default aat_conn_mgr
      ∷ default sink_proto_info
      ∷ default aat_conn_status
      ∷ default aat_avt_id
      ∷ default aat_dir
      ∷ default aat_rcs_id
      ∷ default aat_proto_info
      ∷ default aat_conn_id
      ∷ default src_proto_info
      ∷ default cur_conn_ids
      ∷ [];
  callbacks = [];
}

abbrev session : Session Unit
session = record {
  event = record {
    request = arguments [];
    action_name = codes "PrepareForConnection";
    service_type = codes "ConnectionManager";
    action_result = none;
    err_code = success;
    err_str = none;
    status = pos 0;
  };
  service = record { container = start_container; last_change = none; dom = []; notified = [] };
  own = tt;
}

default_stored :
    (v : ConnectionVariable)
    → VariableContainer.get start_container (pos (variable_num v)) ≡ some (default v)
unfolding VariableContainer.get create_sorted_meta insert_meta connmgr_var_meta
default_stored aat_conn_mgr = refl
default_stored sink_proto_info = refl
default_stored aat_conn_status = refl
default_stored aat_avt_id = refl
default_stored aat_dir = refl
default_stored aat_rcs_id = refl
default_stored aat_proto_info = refl
default_stored aat_conn_id = refl
default_stored src_proto_info = refl
default_stored cur_conn_ids = refl

handler-outcome_example :
    handler prepareforconnection session
    ≡ some (
      (outcome prepareforconnection default session.event).0,
      record session { event = (outcome prepareforconnection default session.event).1 },
    )
handler-outcome_example = handler-outcome session default default_stored prepareforconnection
