-- ===== src/Transport/Actions.antt =====
-- src/upnp_transport.c: the commands of the service (`transport_cmd`, without the prefix
-- TRANSPORT_CMD_), the tables of their arguments, and the names and callbacks of the actions.
-- `struct action` is that of src/upnp_service.h.
pub mod Answers
use gmrender_resurrect.Prelude.{Bool, true, false, Option, none, some, List, [], ◌∷◌, if◌then◌else◌}
use gmrender_resurrect.Prelude.Text.{Bytes, codes, str_eq}
use gmrender_resurrect.Prelude.Int.{ℤ}
use gmrender_resurrect.XmlDoc.{Ixml}
use gmrender_resurrect.ActionEvent.{Upnp}
use gmrender_resurrect.Output.{OutputModule}
use gmrender_resurrect.Transport.{Transport}
use gmrender_resurrect.Transport.Variables
use gmrender_resurrect.Transport.Variables.{
  TransportVariable, aat_instance_id, aat_seek_mode, aat_seek_target, abs_ctr_pos, abs_time_pos,
  av_uri, av_uri_meta, cur_media_dur, cur_play_mode, cur_rec_qual_mode, cur_track, cur_track_dur,
  cur_track_meta, cur_track_uri, cur_transport_actions, next_av_uri, next_av_uri_meta, nr_tracks,
  play_media, play_medium, pos_rec_qual_mode, rec_media, rec_medium, rec_medium_wr_status,
  rel_ctr_pos, rel_time_pos, transport_play_speed, transport_status,
}
use gmrender_resurrect.Arguments.{Argument, in_arg, out_arg}
use gmrender_resurrect.Transport.Handlers

pub data TransportCmd : Type 0 where
  getcurrenttransportactions getdevicecapabilities getmediainfo getpositioninfo gettransportinfo
        gettransportsettings :
      TransportCmd
  pause play seek setavtransporturi stop setnextavtransporturi : TransportCmd

-- `argument_list`
unfoldable pub argument_list : TransportCmd → List (Argument TransportVariable)
argument_list getcurrenttransportactions =
    in_arg (codes "InstanceID") aat_instance_id
    ∷ out_arg (codes "Actions") cur_transport_actions
    ∷ []
argument_list getdevicecapabilities =
    in_arg (codes "InstanceID") aat_instance_id
    ∷ out_arg (codes "PlayMedia") play_media
    ∷ out_arg (codes "RecMedia") rec_media
    ∷ out_arg (codes "RecQualityModes") pos_rec_qual_mode
    ∷ []
argument_list getmediainfo =
    in_arg (codes "InstanceID") aat_instance_id
    ∷ out_arg (codes "NrTracks") nr_tracks
    ∷ out_arg (codes "MediaDuration") cur_media_dur
    ∷ out_arg (codes "CurrentURI") av_uri
    ∷ out_arg (codes "CurrentURIMetaData") av_uri_meta
    ∷ out_arg (codes "NextURI") next_av_uri
    ∷ out_arg (codes "NextURIMetaData") next_av_uri_meta
    ∷ out_arg (codes "PlayMedium") play_medium
    ∷ out_arg (codes "RecordMedium") rec_medium
    ∷ out_arg (codes "WriteStatus") rec_medium_wr_status
    ∷ []
argument_list getpositioninfo =
    in_arg (codes "InstanceID") aat_instance_id
    ∷ out_arg (codes "Track") cur_track
    ∷ out_arg (codes "TrackDuration") cur_track_dur
    ∷ out_arg (codes "TrackMetaData") cur_track_meta
    ∷ out_arg (codes "TrackURI") cur_track_uri
    ∷ out_arg (codes "RelTime") rel_time_pos
    ∷ out_arg (codes "AbsTime") abs_time_pos
    ∷ out_arg (codes "RelCount") rel_ctr_pos
    ∷ out_arg (codes "AbsCount") abs_ctr_pos
    ∷ []
argument_list gettransportinfo =
    in_arg (codes "InstanceID") aat_instance_id
    ∷ out_arg (codes "CurrentTransportState") Variables.transport_state
    ∷ out_arg (codes "CurrentTransportStatus") transport_status
    ∷ out_arg (codes "CurrentSpeed") transport_play_speed
    ∷ []
argument_list gettransportsettings =
    in_arg (codes "InstanceID") aat_instance_id
    ∷ out_arg (codes "PlayMode") cur_play_mode
    ∷ out_arg (codes "RecQualityMode") cur_rec_qual_mode
    ∷ []
argument_list pause = in_arg (codes "InstanceID") aat_instance_id ∷ []
argument_list play =
    in_arg (codes "InstanceID") aat_instance_id ∷ in_arg (codes "Speed") transport_play_speed ∷ []
argument_list seek =
    in_arg (codes "InstanceID") aat_instance_id
    ∷ in_arg (codes "Unit") aat_seek_mode
    ∷ in_arg (codes "Target") aat_seek_target
    ∷ []
argument_list setavtransporturi =
    in_arg (codes "InstanceID") aat_instance_id
    ∷ in_arg (codes "CurrentURI") av_uri
    ∷ in_arg (codes "CurrentURIMetaData") av_uri_meta
    ∷ []
argument_list stop = in_arg (codes "InstanceID") aat_instance_id ∷ []
argument_list setnextavtransporturi =
    in_arg (codes "InstanceID") aat_instance_id
    ∷ in_arg (codes "NextURI") next_av_uri
    ∷ in_arg (codes "NextURIMetaData") next_av_uri_meta
    ∷ []

-- The names in `transport_actions`, and the commands in their order.
unfoldable pub action_name : TransportCmd → Bytes
action_name getcurrenttransportactions = codes "GetCurrentTransportActions"
action_name getdevicecapabilities = codes "GetDeviceCapabilities"
action_name getmediainfo = codes "GetMediaInfo"
action_name getpositioninfo = codes "GetPositionInfo"
action_name gettransportinfo = codes "GetTransportInfo"
action_name gettransportsettings = codes "GetTransportSettings"
action_name pause = codes "Pause"
action_name play = codes "Play"
action_name seek = codes "Seek"
action_name setavtransporturi = codes "SetAVTransportURI"
action_name stop = codes "Stop"
action_name setnextavtransporturi = codes "SetNextAVTransportURI"

abbrev pub all_commands : List TransportCmd
all_commands =
    getcurrenttransportactions ∷ getdevicecapabilities ∷ getmediainfo ∷ getpositioninfo
    ∷ gettransportinfo ∷ gettransportsettings ∷ pause ∷ play ∷ seek ∷ setavtransporturi ∷ stop
    ∷ setnextavtransporturi ∷ []

-- `find_action` on `transport_actions`; its loop ends at the entry without a name.
pub find_in : Bytes → List TransportCmd → Option TransportCmd
find_in name [] = none
find_in name (cmd ∷ rest) =
    let later = find_in name rest in if str_eq (action_name cmd) name then some cmd else later

unfoldable pub find_action : Bytes → Option TransportCmd
unfolding find_in action_name
find_action name = find_in name all_commands

module _ ⦃x : Ixml⦄ ⦃u : Upnp⦄ ⦃o : OutputModule⦄ where
  -- The callbacks in `transport_actions`.
  unfoldable pub handler : TransportCmd → Transport ℤ
  handler getcurrenttransportactions = Handlers.get_current_transportactions
  handler getdevicecapabilities = Handlers.get_device_caps
  handler getmediainfo = Handlers.get_media_info
  handler getpositioninfo = Handlers.get_position_info
  handler gettransportinfo = Handlers.get_transport_info
  handler gettransportsettings = Handlers.get_transport_settings
  handler pause = Handlers.pause_stream
  handler play = Handlers.play
  handler seek = Handlers.seek
  handler setavtransporturi = Handlers.set_avtransport_uri
  handler stop = Handlers.stop
  handler setnextavtransporturi = Handlers.set_next_avtransport_uri
