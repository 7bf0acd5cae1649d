-- ===== src/Tests.antt =====
-- The properties on concrete runs: a libixml that only records text, a libupnp that lists what is
-- added to a response, an output module that counts its calls, and the service as it is created,
-- with and without the collector.
mod Control
mod WebServer
mod ConnectionManager
mod MimeTypes
use gmrender_resurrect.Transport.Table.{transport_table, lc, transport_metas}
use gmrender_resurrect.Prelude.{
  ℕ, ◌+◌, ◌≡◌, ◌≢◌, refl, arith, true, Option, none, some, List, [], ◌∷◌, ◌++◌, ◌^◌, if◌then◌else◌,
  ltb, length, inl,
}
use gmrender_resurrect.Prelude.Text.{Bytes, codes, str_eq}
use gmrender_resurrect.Prelude.Bits.{set_bit, test_bit}
use gmrender_resurrect.Prelude.Int.{pos, negsuc}
use gmrender_resurrect.Prelude.Float.{of_int}
use gmrender_resurrect.Prelude.Run.{Returns}
use gmrender_resurrect.XmlEscape.{xmlescape, escaped}
use gmrender_resurrect.XmlEscape.Laws.{
  unescape, IsInert, xmlescape-eq-escaped, unescape-xmlescape, xmlescape-IsInert,
  xmlescape_conflates,
}
use gmrender_resurrect.XmlDoc.{Ixml}
use gmrender_resurrect.VariableContainer
use gmrender_resurrect.VariableContainer.{Container, VarMeta, collector}
use gmrender_resurrect.VariableContainer.Creation.{IsNew, new-IsNew}
use gmrender_resurrect.LastChangeCollector
use gmrender_resurrect.LastChangeCollector.{Service, Collector, text_of}
use gmrender_resurrect.LastChangeCollector.Ready.{IsReady, Quiet}
use gmrender_resurrect.LastChangeCollector.Listeners.{stored}
use gmrender_resurrect.LastChangeCollector.Changes.{
  Updated, finishing, change-Updated, finish-Returns,
}
use gmrender_resurrect.LastChangeCollector.Events.{
  gathered, with_builder, closing, change_gathers, finish_silent,
}
use gmrender_resurrect.ActionEvent.{Upnp, ActionEvent, Session, arguments, added, success}
use gmrender_resurrect.LastChangeBuilder.{Builder}
use gmrender_resurrect.Device.{DeviceService, VarRequest, find_service, handle_var_request}
use gmrender_resurrect.Device.Requests.{IsAnswer, handle_var_request-IsAnswer}
use gmrender_resurrect.Output.{OutputModule}
use gmrender_resurrect.Transport.{TransportState, stopped, playing, Own}
use gmrender_resurrect.Transport.Variables.{variable_count, transport_var_meta, zero_time}
use gmrender_resurrect.Transport.Feedback.{play_stopped, play_started_next_stream}
use gmrender_resurrect.Transport.Handlers
use gmrender_resurrect.Transport.Handlers.{inform_play_transition_from_output, feedback_locked}
use gmrender_resurrect.Transport.{
  service_lock, service_unlock, replace_transport_uri_and_meta, replace_current_uri_and_meta,
  change_transport_state, available_actions, replace_actions, replace_var, get_var,
}
use gmrender_resurrect.Transport.Actions.{getpositioninfo, handler}
use gmrender_resurrect.Transport.Actions.Answers.{answers}
use gmrender_resurrect.Abstract.{abs, IsGood, Match}
use gmrender_resurrect.Transport.Contract.{
  stop_contract, play_contract, pause_contract, set_uri_contract, set_next_uri_contract,
  seek_contract, feedback_in, answer_contract,
}
use gmrender_resurrect.Transport.Request.{handle_action_request}
use gmrender_resurrect.Transport.Request.Refinement.{request_contract}
use gmrender_resurrect.Transport.Time.{parse_upnp_time, print_upnp_time}
use gmrender_resurrect.Transport.Time.Reading.{parse_upnp_time-print_upnp_time}
use gmrender_resurrect.Transport.Clock.{update_track_time, clock_contract}
use gmrender_resurrect.Transport.Consistency.{IsConsistent}
use gmrender_resurrect.Transport.Invariant.{report, here, later, Reachable-IsConsistent}
use gmrender_resurrect.Transport.Created.{
  get_service, at_start, get_service-Returns, created-IsGood,
}
use gmrender_resurrect.Transport.Promises.{
  is_query, handle_action_request-Match, stop-Match, play-Match, pause_stream-Match,
  set_avtransport_uri-Match, set_next_avtransport_uri-Match, seek-Match,
  inform_play_transition-Match, update_track_time-Match, query-Match,
}

instance abbrev pub recorder : Ixml
recorder = record {
  Dom = Bytes;
  Node = ℕ;
  create_document = λ dom. (length dom, dom);
  create_element = λ doc name dom. (length dom, dom ++ name);
  create_element_ns = λ doc xmlns name dom. (length dom, dom ++ name);
  create_text_node = λ doc text dom. (length dom, dom ++ text);
  append_child = λ parent child dom. dom;
  set_attribute = λ element name value dom. dom ++ name ++ value;
  document_free = λ doc dom. [];
  document_to_string = λ doc dom. some dom;
}

instance abbrev pub listing : Upnp
listing = record {
  Response = List (Bytes × Bytes);
  add_to_action_response = λ old action type key value. elim old [
    | none ↦ added ((key, value) ∷ [])
    | some r ↦ added ((key, value) ∷ r)
  ];
  make_action_response = λ action type. [];
  line_size = 180;
}

instance abbrev pub counter : OutputModule
counter = record {
  Out = ℕ;
  set_uri = some (λ uri has_meta_cb out. out + 1);
  set_next_uri = some (λ uri out. out + 1);
  play = some (λ out. (pos 0, out + 1));
  pause = some (λ out. (pos 0, out + 1));
  stop = some (λ out. (pos 0, out + 1));
  seek = some (λ position out. (pos 0, out + 1));
  get_position = some (λ out. (pos 0, pos 61000000000, pos 2000000000, out + 1));
  get_volume = some (λ out. (pos 0, of_int (pos 1), out + 1));
  set_volume = some (λ value out. (pos 0, out + 1));
  get_mute = some (λ out. (pos 0, pos 0, out + 1));
  set_mute = some (λ value out. (pos 0, out + 1));
}

abbrev start_container : Container
start_container = record {
  variable_num = 30;
  vars = transport_metas;
  values =
      codes "OK"
      ∷ codes ""
      ∷ codes ""
      ∷ codes ""
      ∷ codes "2147483647"
      ∷ codes "0"
      ∷ codes ""
      ∷ codes "UNKNOWN"
      ∷ zero_time
      ∷ codes "NOT_IMPLEMENTED"
      ∷ codes "NORMAL"
      ∷ codes "1"
      ∷ codes "NETWORK,UNKNOWN"
      ∷ codes "NOT_IMPLEMENTED"
      ∷ codes "0"
      ∷ codes ""
      ∷ codes "PLAY"
      ∷ codes "0"
      ∷ codes ""
      ∷ codes "2147483647"
      ∷ codes "NOT_IMPLEMENTED"
      ∷ codes ""
      ∷ codes "TRACK_NR"
      ∷ codes ""
      ∷ codes "NOT_IMPLEMENTED"
      ∷ codes "NOT_IMPLEMENTED"
      ∷ codes "<Event xmlns=\"urn:schemas-upnp-org:metadata-1-0/AVT/\"/>"
      ∷ zero_time
      ∷ codes "STOPPED"
      ∷ codes "NOT_IMPLEMENTED"
      ∷ [];
  callbacks = [];
}

start_container_made :
    VariableContainer.new variable_count transport_var_meta ≡ some start_container
unfolding VariableContainer.new transport_metas
start_container_made = refl

new-IsNew_example : IsNew variable_count transport_var_meta start_container
new-IsNew_example = new-IsNew variable_count transport_var_meta start_container start_container_made

abbrev plain : Service
plain = record { container = start_container; last_change = none; dom = []; notified = [] }

abbrev collector_with : ℕ → Option (ℕ × ℕ) → Collector
collector_with depth document = record {
  last_change_variable_num = 26;
  not_eventable_variables = set_bit 0 26;
  service_id = codes "urn:upnp-org:serviceId:AVTransport";
  open_transactions = depth;
  builder = record { xml_namespace = none; document = document };
}

-- The service with its collector, at a depth of transactions.
abbrev wired : ℕ → Option (ℕ × ℕ) → Service
wired depth document = record {
  container = record start_container { callbacks = collector ∷ [] };
  last_change = some (collector_with depth document);
  dom = codes "abc";
  notified = [];
}

abbrev event : Bytes → List (Bytes × Option Bytes) → ActionEvent
event name args = record {
  request = arguments ((codes "InstanceID", some (codes "0")) ∷ args);
  action_name = name;
  service_type = codes "urn:schemas-upnp-org:service:AVTransport:1";
  action_result = none;
  err_code = success;
  err_str = none;
  status = pos 0;
}

abbrev session : TransportState → Bytes → List (Bytes × Option Bytes) → Session Own
session state name args = record {
  event = event name args;
  service = wired 0 none;
  own = record { transport_state = state; output = 0 };
}

plain-IsReady : IsReady transport_metas lc plain
plain-IsReady = created-IsGood plain start_container start_container_made refl refl

wired-IsReady :
    (depth : ℕ) (document : Option (ℕ × ℕ)) → IsReady transport_metas lc (wired depth document)
unfolding transport_metas test_bit set_bit
wired-IsReady depth document = record {
  vars_eq = refl;
  num_eq = refl;
  values_length = refl;
  lc_lt = plain-IsReady.lc_lt;
  named = plain-IsReady.named;
  wired = (refl, refl);
}

session-IsGood :
    (state : TransportState) (name : Bytes) (args : List (Bytes × Option Bytes))
    → IsGood (session state name args)
session-IsGood state name args = wired-IsReady 0 none

handle_action_request-Match_example :
    Match
      (request_contract (abs (session stopped (codes "Play") [])))
      (handle_action_request (session stopped (codes "Play") []))
handle_action_request-Match_example =
    handle_action_request-Match (session stopped (codes "Play") [])
      (session-IsGood stopped (codes "Play") [])

stop-Match_example :
    Match
      (stop_contract (abs (session playing (codes "Stop") [])))
      (Handlers.stop (session playing (codes "Stop") []))
stop-Match_example =
    stop-Match (session playing (codes "Stop") []) (session-IsGood playing (codes "Stop") [])

play-Match_example :
    Match
      (play_contract (abs (session stopped (codes "Play") [])))
      (Handlers.play (session stopped (codes "Play") []))
play-Match_example =
    play-Match (session stopped (codes "Play") []) (session-IsGood stopped (codes "Play") [])

pause_stream-Match_example :
    Match
      (pause_contract (abs (session playing (codes "Pause") [])))
      (Handlers.pause_stream (session playing (codes "Pause") []))
pause_stream-Match_example =
    pause_stream-Match (session playing (codes "Pause") [])
      (session-IsGood playing (codes "Pause") [])

set_avtransport_uri-Match_example :
    Match
      (set_uri_contract (
        abs (
          session playing (codes "SetAVTransportURI") (
            (codes "CurrentURI", some (codes "http://a/b"))
            ∷ (codes "CurrentURIMetaData", some (codes ""))
            ∷ []))))
      (Handlers.set_avtransport_uri (
        session playing (codes "SetAVTransportURI") (
          (codes "CurrentURI", some (codes "http://a/b"))
          ∷ (codes "CurrentURIMetaData", some (codes ""))
          ∷ [])))
set_avtransport_uri-Match_example =
    set_avtransport_uri-Match
      (session playing (codes "SetAVTransportURI") (
        (codes "CurrentURI", some (codes "http://a/b"))
        ∷ (codes "CurrentURIMetaData", some (codes ""))
        ∷ []))
      (session-IsGood playing (codes "SetAVTransportURI") (
        (codes "CurrentURI", some (codes "http://a/b"))
        ∷ (codes "CurrentURIMetaData", some (codes ""))
        ∷ []))

set_next_avtransport_uri-Match_example :
    Match
      (set_next_uri_contract (
        abs (
          session playing (codes "SetNextAVTransportURI") (
            (codes "NextURI", some (codes "http://a/c"))
            ∷ (codes "NextURIMetaData", some (codes ""))
            ∷ []))))
      (Handlers.set_next_avtransport_uri (
        session playing (codes "SetNextAVTransportURI") (
          (codes "NextURI", some (codes "http://a/c"))
          ∷ (codes "NextURIMetaData", some (codes ""))
          ∷ [])))
set_next_avtransport_uri-Match_example =
    set_next_avtransport_uri-Match
      (session playing (codes "SetNextAVTransportURI") (
        (codes "NextURI", some (codes "http://a/c"))
        ∷ (codes "NextURIMetaData", some (codes ""))
        ∷ []))
      (session-IsGood playing (codes "SetNextAVTransportURI") (
        (codes "NextURI", some (codes "http://a/c"))
        ∷ (codes "NextURIMetaData", some (codes ""))
        ∷ []))

seek-Match_example :
    Match
      (seek_contract (
        abs (
          session playing (codes "Seek") (
            (codes "Unit", some (codes "REL_TIME"))
            ∷ (codes "Target", some (codes "0:01:02"))
            ∷ []))))
      (Handlers.seek (
        session playing (codes "Seek") (
          (codes "Unit", some (codes "REL_TIME")) ∷ (codes "Target", some (codes "0:01:02")) ∷ [])))
seek-Match_example =
    seek-Match
      (session playing (codes "Seek")
        ((codes "Unit", some (codes "REL_TIME")) ∷ (codes "Target", some (codes "0:01:02")) ∷ []))
      (session-IsGood playing (codes "Seek")
        ((codes "Unit", some (codes "REL_TIME")) ∷ (codes "Target", some (codes "0:01:02")) ∷ []))

inform_play_transition-Match_example :
    Match
      (some (tt, feedback_in play_started_next_stream (abs (session playing (codes "Play") []))))
      (Handlers.inform_play_transition_from_output play_started_next_stream
        (session playing (codes "Play") []))
inform_play_transition-Match_example =
    inform_play_transition-Match play_started_next_stream (session playing (codes "Play") [])
      (session-IsGood playing (codes "Play") [])

update_track_time-Match_example :
    Match
      (clock_contract (negsuc 0) (negsuc 0) (abs (session playing (codes "Play") [])))
      (update_track_time (negsuc 0) (negsuc 0) (session playing (codes "Play") []))
update_track_time-Match_example =
    update_track_time-Match (negsuc 0) (negsuc 0) (session playing (codes "Play") [])
      (session-IsGood playing (codes "Play") [])

is_query-position : is_query getpositioninfo ≡ true
unfolding is_query
is_query-position = refl

query-Match_example :
    Match
      (answer_contract
        (answers getpositioninfo)
        (abs (session playing (codes "GetPositionInfo") [])))
      (handler getpositioninfo (session playing (codes "GetPositionInfo") []))
query-Match_example =
    query-Match getpositioninfo (session playing (codes "GetPositionInfo") []) is_query-position
      (session-IsGood playing (codes "GetPositionInfo") [])

-- A session before a request, which the output then changes twice.
abbrev first : Session Own
first = at_start plain (event (codes "Stop") []) 0

first-IsConsistent : IsConsistent (abs first)
unfolding transport_metas
first-IsConsistent = record {
  used = tt;
  state_shown = refl;
  tracks_shown = refl;
  actions_shown = inl refl;
}

-- The session after the output has reported that it stopped.
second : Session Own
unfolding inform_play_transition_from_output
second = elim (inform_play_transition_from_output play_stopped first) [
  | none ↦ first
  | some (_, t) ↦ t
]

second_reported : inform_play_transition_from_output play_stopped first ≡ some (tt, second)
unfolding second inform_play_transition_from_output feedback_locked service_lock service_unlock
    replace_transport_uri_and_meta replace_current_uri_and_meta change_transport_state
    available_actions replace_actions replace_var get_var LastChangeCollector.change transport_metas
    str_eq
second_reported = refl

Reachable-IsConsistent_example : IsGood second × IsConsistent (abs second)
Reachable-IsConsistent_example =
    Reachable-IsConsistent {s = first} {t = second} plain-IsReady first-IsConsistent
      (later here (report play_stopped second_reported))

get_service-Returns_example :
    (service : Service) × (get_service [] ≡ some service)
    × IsGood (at_start service (event (codes "Stop") []) 0)
    × IsConsistent (abs (at_start service (event (codes "Stop") []) 0))
get_service-Returns_example = get_service-Returns [] (event (codes "Stop") []) 0

change-Updated_example :
    Returns
      (Updated transport_metas lc 18 (codes "http://a") (wired 0 none))
      (LastChangeCollector.change 18 (some (codes "http://a")) (wired 0 none))
unfolding transport_metas
change-Updated_example =
    change-Updated transport_metas lc 18 (some (codes "http://a")) (wired 0 none)
      (wired-IsReady 0 none) (omega arith) (omega arith)

finish-Returns_example :
    Returns
      (λ _ t.
        IsReady transport_metas lc t
        × Quiet lc (finishing (collector_with 2 none) (wired 2 none)) t)
      (LastChangeCollector.finish (wired 2 none))
finish-Returns_example =
    finish-Returns transport_metas lc (wired 2 none) (collector_with 2 none) (wired-IsReady 2 none)
      refl (omega arith)

new_uri : codes "http://a" ≢ codes ""
new_uri = λ e. ground (arith, e)

change_gathers_example :
    LastChangeCollector.change 18 (some (codes "http://a")) (wired 1 none)
    ≡ some (
      true,
      with_builder
          (collector_with 1 none)
          (gathered
            (collector_with 1 none)
            18
            (codes "AVTransportURI")
            (codes "http://a")
            (codes "abc"))
          (stored 18 (codes "http://a") (wired 1 none)),
    )
unfolding transport_metas
change_gathers_example =
    change_gathers 18 (some (codes "http://a")) (wired 1 none) (collector_with 1 none) (codes "")
      (codes "AVTransportURI") refl (omega arith) tt (omega arith) refl refl new_uri

finish_silent_example :
    LastChangeCollector.finish (wired 2 (some (0, 1)))
    ≡ some (tt, closing (collector_with 2 (some (0, 1))) (wired 2 (some (0, 1))))
finish_silent_example =
    finish_silent (wired 2 (some (0, 1))) (collector_with 2 (some (0, 1))) refl (omega arith)
      (inl (omega arith))

abbrev old_event : Bytes
old_event = codes "<Event xmlns=\"urn:schemas-upnp-org:metadata-1-0/AVT/\"/>"

xmlescape-eq-escaped_example : xmlescape (codes "a<b") true ≡ (
    if ltb (length (escaped (codes "a<b") true) + 1) (2 ^ 31)
    then some (escaped (codes "a<b") true)
    else none)
xmlescape-eq-escaped_example = xmlescape-eq-escaped (codes "a<b") true

unescape-xmlescape_example : unescape 0 (codes "a&lt;b&amp;") ≡ codes "a<b&"
unfolding xmlescape
unescape-xmlescape_example = unescape-xmlescape (codes "a<b&") {out = codes "a&lt;b&amp;"} refl

xmlescape-IsInert_example : IsInert true (codes "%22&lt;")
unfolding xmlescape
xmlescape-IsInert_example = xmlescape-IsInert (codes "\"<") true {out = codes "%22&lt;"} refl

xmlescape_conflates_example :
    xmlescape (codes "a" ++ (b'"' ∷ codes "b")) true
    ≡ xmlescape (codes "a" ++ codes "%22" ++ codes "b") true
xmlescape_conflates_example = xmlescape_conflates (codes "a") (codes "b")

abbrev transport_service : DeviceService
transport_service = record {
  service_id = codes "AVT";
  event_xml_ns = none;
  container = start_container;
}

abbrev state_request : VarRequest
state_request = record {
  service_id = codes "AVT";
  state_var_name = codes "TransportState";
  current_val = none;
  err_code = success;
}

transport_found : find_service (transport_service ∷ []) (codes "AVT") ≡ some transport_service
unfolding find_service str_eq
transport_found = refl

handle_var_request-IsAnswer_example :
    ((handle_var_request (transport_service ∷ []) state_request).0 ≡ pos 0)
    × IsAnswer start_container
        (codes "TransportState")
        (handle_var_request (transport_service ∷ []) state_request).1.current_val
        (handle_var_request (transport_service ∷ []) state_request).1.err_code
handle_var_request-IsAnswer_example =
    handle_var_request-IsAnswer (transport_service ∷ []) state_request transport_service
      transport_found

abbrev empty_builder : Builder
empty_builder = record { xml_namespace = none; document = none }

parse_upnp_time-print_upnp_time_example :
    parse_upnp_time (print_upnp_time 32 (pos 3723500000000)) ≡ some (pos 3723000000000)
parse_upnp_time-print_upnp_time_example =
    parse_upnp_time-print_upnp_time 3723500000000 (omega arith)
