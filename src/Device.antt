-- ===== src/Device.antt =====
-- src/upnp_device.c: the search for a service, the requests for the value of a variable, and the
-- subscriptions. libupnp's `UpnpAcceptSubscription` is a parameter.
pub mod Requests
use gmrender_resurrect.Prelude.{
  ℕ, zero, suc, ◌+◌, Bool, true, false, not, ◌&&◌, Option, none, some, List, [], ◌∷◌, if◌then◌else◌,
}
use gmrender_resurrect.Prelude.Text.{Bytes, codes, str_eq, starts_with}
use gmrender_resurrect.Prelude.Int.{ℤ, pos, negsuc}
use gmrender_resurrect.XmlEscape.{xmlescape}
use gmrender_resurrect.XmlDoc.{Ixml}
use gmrender_resurrect.VariableContainer
use gmrender_resurrect.VariableContainer.{Container}
use gmrender_resurrect.LastChangeBuilder
use gmrender_resurrect.LastChangeBuilder.{Builder}
use gmrender_resurrect.ActionEvent.{ErrCode, success, invalid_args, invalid_var}

-- A service of the device descriptor, as far as these requests use it.
pub record DeviceService : Type 0 where
  pub service_id : Bytes
  pub event_xml_ns : Option Bytes
  pub container : Container

-- `find_service`
unfoldable pub find_service : List DeviceService → Bytes → Option DeviceService
find_service [] service_id = none
find_service (s ∷ rest) service_id =
    let later = find_service rest service_id in
    if str_eq s.service_id service_id then some s else later

-- `UpnpStateVarRequest`
pub record VarRequest : Type 0 where
  pub service_id : Bytes
  pub state_var_name : Bytes
  pub current_val : Option Bytes
  pub err_code : ErrCode

-- The loop of `handle_var_request` over the variables from `i` on, `left` of them.
unfoldable pub find_value : Container → Bytes → ℕ → ℕ → Option Bytes
find_value c state_var_name zero i = none
find_value c state_var_name (suc left) i =
    let later = find_value c state_var_name left (i + 1) in
    elim (VariableContainer.get_named c (pos i)) [
      | none ↦ later
      | some (name, value) ↦ if str_eq state_var_name name then some value else later
    ]

unfoldable pub value_code : Option Bytes → ErrCode
value_code none = invalid_var
value_code (some _) = success

-- `handle_var_request`: the return code, and the request after it.
unfoldable pub handle_var_request : List DeviceService → VarRequest → ℤ × VarRequest
unfolding find_value value_code
handle_var_request services event = elim (find_service services event.service_id) [
  | none ↦ (negsuc 0, record event { err_code = invalid_args })
  | some srv ↦
      let result =
        find_value srv.container event.state_var_name (VariableContainer.get_num_vars srv.container)
          0 in
      (pos 0, record event { current_val = result; err_code = value_code result })
]

-- The variables that an initial event tells.
unfoldable pub is_evented : Bytes → Bool
is_evented name =
    not (str_eq (codes "LastChange") name) && not (starts_with (codes "A_ARG_TYPE_") name)

module _ ⦃x : Ixml⦄ where
  -- The loop of `handle_subscription_request` over the variables from `i` on, `left` of them.
  unfoldable pub gather : Container → ℕ → ℕ → Builder → x.Dom → Builder × x.Dom
  unfolding is_evented
  gather c zero i builder dom = (builder, dom)
  gather c (suc left) i builder dom =
      let (builder', dom') =
        let at_variable : Builder × x.Dom = elim (VariableContainer.get_named c (pos i)) [
          | none ↦ (builder, dom)
          | some (name, value) ↦
              if is_evented name
              then LastChangeBuilder.add builder name value dom
              else (builder, dom)
        ] in
        at_variable in
      gather c left (i + 1) builder' dom'

  -- `handle_subscription_request`: the return code and the documents after it; `accept` is
  -- `UpnpAcceptSubscription` on the service and the value of LastChange, true for UPNP_E_SUCCESS.
  -- `none` is a fault: `xmlescape` of NULL.
  unfoldable pub handle_subscription_request :
      (Bytes → Bytes → Bool) → List DeviceService → Bytes → x.Dom → Option (ℤ × x.Dom)
  unfolding gather
  handle_subscription_request accept services service_id dom =
      elim (find_service services service_id) [
        | none ↦ some (negsuc 0, dom)
        | some srv ↦
            let (builder, dom1) =
              gather srv.container (VariableContainer.get_num_vars srv.container) 0
                (LastChangeBuilder.new srv.event_xml_ns) dom in
            let (xml_value, builder', dom2) = LastChangeBuilder.to_xml builder dom1 in
            elim xml_value [
              | none ↦ none
              | some xml ↦ elim (xmlescape xml false) [
                | none ↦ none
                | some quoted ↦ some (
                  if accept service_id quoted then pos 0 else negsuc 0,
                  LastChangeBuilder.delete builder' dom2,
                )
              ]
            ]
      ]
