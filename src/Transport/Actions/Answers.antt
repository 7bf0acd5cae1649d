-- ===== src/Transport/Actions/Answers.antt =====
-- The actions that answer with variables, against the tables of their arguments.
use gmrender_resurrect.Transport.Table.{transport_table, Refines-append_variable, lc}
use gmrender_resurrect.Prelude.{List, ◌≢◌, refl, arith, some, [], ◌∷◌}
use gmrender_resurrect.Prelude.Text.{Bytes}
use gmrender_resurrect.Prelude.Int.{ℤ}
use gmrender_resurrect.Prelude.Run.{◌>>◌, pure}
use gmrender_resurrect.XmlDoc.{Ixml}
use gmrender_resurrect.ActionEvent.{Upnp}
use gmrender_resurrect.Output.{OutputModule}
use gmrender_resurrect.Transport.{Transport}
use gmrender_resurrect.Transport.Variables.{play_medium, rec_media, TransportVariable, variable_num}
use gmrender_resurrect.Abstract.{Refines, Refines-eq, Refines-bind, Refines-pure}
use gmrender_resurrect.Transport.Contract.{answered, answer_contract}
use gmrender_resurrect.Transport.Handlers.{ok}
use gmrender_resurrect.Transport.Handlers.Steps.{with_instance-Refines}
use gmrender_resurrect.Transport.Handlers.{
  append, get_media_info, get_transport_info, get_current_transportactions, get_transport_settings,
  get_device_caps, get_position_info,
}
use gmrender_resurrect.Arguments.{declared}
use gmrender_resurrect.Transport.Actions.{
  TransportCmd, getcurrenttransportactions, getdevicecapabilities, getmediainfo, getpositioninfo,
  gettransportinfo, gettransportsettings, argument_list,
}

module _ ⦃x : Ixml⦄ ⦃u : Upnp⦄ ⦃o : OutputModule⦄ where
  append_all : List (TransportVariable × Bytes) → Transport ℤ
  append_all [] = pure ok
  append_all ((v, name) ∷ rest) = append v name >> append_all rest

  IsAnswer : List (TransportVariable × Bytes) → Type 0
  IsAnswer [] = Unit
  IsAnswer ((v, name) ∷ rest) = (variable_num v ≢ lc) × IsAnswer rest

  append_all-Refines :
      (vars : List (TransportVariable × Bytes))
      → IsAnswer vars
      → Refines (append_all vars) (λ v. some (ok, record v { event = answered vars v.var v.event }))
  unfolding append_all append IsAnswer
  append_all-Refines [] h = Refines-pure ok
  append_all-Refines ((v, name) ∷ rest) (p, h) =
      Refines-eq (Refines-bind (Refines-append_variable v name p) λ _. append_all-Refines rest h)
        (λ v. refl)

  -- What GetMediaInfo answers with in place of a variable.
  unfoldable pub media_variable : TransportVariable → TransportVariable
  media_variable play_medium = rec_media
  media_variable v = v

  unfoldable pub in_media_info : List (TransportVariable × Bytes) → List (TransportVariable × Bytes)
  unfolding media_variable
  in_media_info [] = []
  in_media_info ((v, name) ∷ rest) = (media_variable v, name) ∷ in_media_info rest

  -- The answers that each of the six actions gives, by the table of its arguments.
  unfoldable pub answers : TransportCmd → List (TransportVariable × Bytes)
  unfolding declared argument_list in_media_info
  answers getpositioninfo = declared (argument_list getpositioninfo)
  answers gettransportinfo = declared (argument_list gettransportinfo)
  answers getcurrenttransportactions = declared (argument_list getcurrenttransportactions)
  answers getmediainfo = in_media_info (declared (argument_list getmediainfo))
  answers _ = []

  pub position_info_answered : Refines get_position_info (answer_contract (answers getpositioninfo))
  unfolding get_position_info answer_contract answers append_all IsAnswer
  position_info_answered =
      with_instance-Refines (append_all-Refines (answers getpositioninfo) (ground arith))

  pub transport_info_answered :
      Refines get_transport_info (answer_contract (answers gettransportinfo))
  unfolding get_transport_info answer_contract answers append_all IsAnswer
  transport_info_answered =
      with_instance-Refines (append_all-Refines (answers gettransportinfo) (ground arith))

  pub current_transportactions_answered :
      Refines get_current_transportactions (answer_contract (answers getcurrenttransportactions))
  unfolding get_current_transportactions answer_contract answers append_all IsAnswer
  current_transportactions_answered =
      with_instance-Refines (append_all-Refines (answers getcurrenttransportactions) (ground arith))

  pub media_info_answered : Refines get_media_info (answer_contract (answers getmediainfo))
  unfolding get_media_info answer_contract answers append_all IsAnswer
  media_info_answered =
      with_instance-Refines (append_all-Refines (answers getmediainfo) (ground arith))

  pub transport_settings_answered :
      Refines get_transport_settings (answer_contract (answers gettransportsettings))
  unfolding get_transport_settings answer_contract answers append_all IsAnswer
  transport_settings_answered =
      with_instance-Refines (append_all-Refines (answers gettransportsettings) (ground arith))

  pub device_caps_answered :
      Refines get_device_caps (answer_contract (answers getdevicecapabilities))
  unfolding get_device_caps answer_contract answers append_all IsAnswer
  device_caps_answered =
      with_instance-Refines (append_all-Refines (answers getdevicecapabilities) (ground arith))
