-- ===== src/Transport/Variables.antt =====
-- src/upnp_transport.c: the numbers of the transport's state variables (`transport_variable_t`,
-- without the prefix TRANSPORT_VAR_), their table `transport_var_meta`, and the texts it names.
use gmrender_resurrect.Prelude.{ℕ, Bool, true, false, Option, none, some, List, [], ◌∷◌}
use gmrender_resurrect.Prelude.Text.{Bytes, codes}
use gmrender_resurrect.Prelude.Int.{pos}
use gmrender_resurrect.VariableContainer.{VarMeta, ParamRange, ParamDatatype, string, i4, ui4}

-- `transport_variable_t`
pub data TransportVariable : Type 0 where
  transport_status next_av_uri next_av_uri_meta cur_track_meta rel_ctr_pos aat_instance_id
        aat_seek_target play_medium rel_time_pos rec_media cur_play_mode transport_play_speed
        play_media abs_time_pos cur_track :
      TransportVariable
  cur_track_uri cur_transport_actions nr_tracks av_uri abs_ctr_pos cur_rec_qual_mode cur_media_dur
        aat_seek_mode av_uri_meta rec_medium rec_medium_wr_status last_change cur_track_dur
        transport_state pos_rec_qual_mode :
      TransportVariable

abbrev pub variable_num : TransportVariable → ℕ
variable_num transport_status = 0
variable_num next_av_uri = 1
variable_num next_av_uri_meta = 2
variable_num cur_track_meta = 3
variable_num rel_ctr_pos = 4
variable_num aat_instance_id = 5
variable_num aat_seek_target = 6
variable_num play_medium = 7
variable_num rel_time_pos = 8
variable_num rec_media = 9
variable_num cur_play_mode = 10
variable_num transport_play_speed = 11
variable_num play_media = 12
variable_num abs_time_pos = 13
variable_num cur_track = 14
variable_num cur_track_uri = 15
variable_num cur_transport_actions = 16
variable_num nr_tracks = 17
variable_num av_uri = 18
variable_num abs_ctr_pos = 19
variable_num cur_rec_qual_mode = 20
variable_num cur_media_dur = 21
variable_num aat_seek_mode = 22
variable_num av_uri_meta = 23
variable_num rec_medium = 24
variable_num rec_medium_wr_status = 25
variable_num last_change = 26
variable_num cur_track_dur = 27
variable_num transport_state = 28
variable_num pos_rec_qual_mode = 29

-- TRANSPORT_VAR_COUNT
abbrev pub variable_count : ℕ
variable_count = 30

abbrev pub zero_time : Bytes
zero_time = codes "0:00:00"

abbrev pub transport_states : List Bytes
transport_states =
    codes "STOPPED"
    ∷ codes "PLAYING"
    ∷ codes "TRANSITIONING"
    ∷ codes "PAUSED_PLAYBACK"
    ∷ codes "PAUSED_RECORDING"
    ∷ codes "RECORDING"
    ∷ codes "NO_MEDIA_PRESENT"
    ∷ []

abbrev pub transport_stati : List Bytes
transport_stati = codes "OK" ∷ codes "ERROR_OCCURRED" ∷ codes " vendor-defined " ∷ []

abbrev pub media : List Bytes
media =
    codes "UNKNOWN"
    ∷ codes "DV"
    ∷ codes "MINI-DV"
    ∷ codes "VHS"
    ∷ codes "W-VHS"
    ∷ codes "S-VHS"
    ∷ codes "D-VHS"
    ∷ codes "VHSC"
    ∷ codes "VIDEO8"
    ∷ codes "HI8"
    ∷ codes "CD-ROM"
    ∷ codes "CD-DA"
    ∷ codes "CD-R"
    ∷ codes "CD-RW"
    ∷ codes "VIDEO-CD"
    ∷ codes "SACD"
    ∷ codes "MD-AUDIO"
    ∷ codes "MD-PICTURE"
    ∷ codes "DVD-ROM"
    ∷ codes "DVD-VIDEO"
    ∷ codes "DVD-R"
    ∷ codes "DVD+RW"
    ∷ codes "DVD-RW"
    ∷ codes "DVD-RAM"
    ∷ codes "DVD-AUDIO"
    ∷ codes "DAT"
    ∷ codes "LD"
    ∷ codes "HDD"
    ∷ codes "MICRO-MV"
    ∷ codes "NETWORK"
    ∷ codes "NONE"
    ∷ codes "NOT_IMPLEMENTED"
    ∷ codes " vendor-defined "
    ∷ []

abbrev pub playmodi : List Bytes
playmodi = codes "NORMAL" ∷ codes "REPEAT_ALL" ∷ codes "INTRO" ∷ []

abbrev pub playspeeds : List Bytes
playspeeds = codes "1" ∷ codes " vendor-defined " ∷ []

abbrev pub rec_write_stati : List Bytes
rec_write_stati =
    codes "WRITABLE"
    ∷ codes "PROTECTED"
    ∷ codes "NOT_WRITABLE"
    ∷ codes "UNKNOWN"
    ∷ codes "NOT_IMPLEMENTED"
    ∷ []

abbrev pub rec_quality_modi : List Bytes
rec_quality_modi =
    codes "0:EP"
    ∷ codes "1:LP"
    ∷ codes "2:SP"
    ∷ codes "0:BASIC"
    ∷ codes "1:MEDIUM"
    ∷ codes "2:HIGH"
    ∷ codes "NOT_IMPLEMENTED"
    ∷ codes " vendor-defined "
    ∷ []

abbrev pub aat_seekmodi : List Bytes
aat_seekmodi =
    codes "ABS_TIME"
    ∷ codes "REL_TIME"
    ∷ codes "ABS_COUNT"
    ∷ codes "REL_COUNT"
    ∷ codes "TRACK_NR"
    ∷ codes "CHANNEL_FREQ"
    ∷ codes "TAPE-INDEX"
    ∷ codes "FRAME"
    ∷ []

abbrev pub track_range : ParamRange
track_range = record { min = pos 0; max = pos 4294967295; step = pos 1 }

abbrev pub track_nr_range : ParamRange
track_nr_range = record { min = pos 0; max = pos 4294967295; step = pos 0 }

abbrev entry :
    TransportVariable
    → Bytes
    → Bytes
    → Bool
    → ParamDatatype
    → Option (List Bytes)
    → Option ParamRange
    → VarMeta
entry v name default_value sendevents datatype allowed_values allowed_range = record {
  id = variable_num v;
  name = some name;
  default_value = some default_value;
  sendevents = sendevents;
  datatype = datatype;
  allowed_values = allowed_values;
  allowed_range = allowed_range;
}

-- `transport_var_meta`, up to its end mark, in the order of the source.
unfoldable pub transport_var_meta : List VarMeta
transport_var_meta =
    entry transport_state (codes "TransportState") (codes "STOPPED") false string
      (some transport_states) none
    ∷ entry transport_status (codes "TransportStatus") (codes "OK") false string
        (some transport_stati) none
    ∷ entry play_medium (codes "PlaybackStorageMedium") (codes "UNKNOWN") false string (some media)
        none
    ∷ entry rec_medium (codes "RecordStorageMedium") (codes "NOT_IMPLEMENTED") false string
        (some media) none
    ∷ entry play_media (codes "PossiblePlaybackStorageMedia") (codes "NETWORK,UNKNOWN") false string
        none none
    ∷ entry rec_media (codes "PossibleRecordStorageMedia") (codes "NOT_IMPLEMENTED") false string
        none none
    ∷ entry cur_play_mode (codes "CurrentPlayMode") (codes "NORMAL") false string (some playmodi)
        none
    ∷ entry transport_play_speed (codes "TransportPlaySpeed") (codes "1") false string
        (some playspeeds) none
    ∷ entry rec_medium_wr_status (codes "RecordMediumWriteStatus") (codes "NOT_IMPLEMENTED") false
        string (some rec_write_stati) none
    ∷ entry cur_rec_qual_mode (codes "CurrentRecordQualityMode") (codes "NOT_IMPLEMENTED") false
        string (some rec_quality_modi) none
    ∷ entry pos_rec_qual_mode (codes "PossibleRecordQualityModes") (codes "NOT_IMPLEMENTED") false
        string none none
    ∷ entry nr_tracks (codes "NumberOfTracks") (codes "0") false ui4 none (some track_nr_range)
    ∷ entry cur_track (codes "CurrentTrack") (codes "0") false ui4 none (some track_range)
    ∷ entry cur_track_dur (codes "CurrentTrackDuration") zero_time false string none none
    ∷ entry cur_media_dur (codes "CurrentMediaDuration") (codes "") false string none none
    ∷ entry cur_track_meta (codes "CurrentTrackMetaData") (codes "") false string none none
    ∷ entry cur_track_uri (codes "CurrentTrackURI") (codes "") false string none none
    ∷ entry av_uri (codes "AVTransportURI") (codes "") false string none none
    ∷ entry av_uri_meta (codes "AVTransportURIMetaData") (codes "") false string none none
    ∷ entry next_av_uri (codes "NextAVTransportURI") (codes "") false string none none
    ∷ entry next_av_uri_meta (codes "NextAVTransportURIMetaData") (codes "") false string none none
    ∷ entry rel_time_pos (codes "RelativeTimePosition") zero_time false string none none
    ∷ entry abs_time_pos (codes "AbsoluteTimePosition") (codes "NOT_IMPLEMENTED") false string none
        none
    ∷ entry rel_ctr_pos (codes "RelativeCounterPosition") (codes "2147483647") false i4 none none
    ∷ entry abs_ctr_pos (codes "AbsoluteCounterPosition") (codes "2147483647") false i4 none none
    ∷ entry last_change (codes "LastChange")
        (codes "<Event xmlns=\"urn:schemas-upnp-org:metadata-1-0/AVT/\"/>") true string none none
    ∷ entry aat_seek_mode (codes "A_ARG_TYPE_SeekMode") (codes "TRACK_NR") false string
        (some aat_seekmodi) none
    ∷ entry aat_seek_target (codes "A_ARG_TYPE_SeekTarget") (codes "") false string none none
    ∷ entry aat_instance_id (codes "A_ARG_TYPE_InstanceID") (codes "0") false ui4 none none
    ∷ entry cur_transport_actions (codes "CurrentTransportActions") (codes "PLAY") false string none
        none
    ∷ []
