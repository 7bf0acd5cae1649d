-- ===== src/Transport/Created.antt =====
-- src/upnp_transport.c: `upnp_transport_get_service`, which makes the variables of the service, and
-- the state of the file at the start.
use gmrender_resurrect.Transport.Table.{
  transport_table, lc, length-transport_metas, transport_metas,
}
use gmrender_resurrect.Prelude.{inl, ◌≡◌, refl, sym, arith, Option, none, some, []}
use gmrender_resurrect.XmlDoc.{Ixml}
use gmrender_resurrect.VariableContainer
use gmrender_resurrect.VariableContainer.{VarMeta, Container, create_sorted_meta, insert_meta, fill}
use gmrender_resurrect.LastChangeCollector.{Service}
use gmrender_resurrect.LastChangeCollector.Fresh.{new-IsReady}
use gmrender_resurrect.LastChangeCollector.Ready.{IsReady}
use gmrender_resurrect.ActionEvent.{Upnp, ActionEvent, Session}
use gmrender_resurrect.Output.{OutputModule}
use gmrender_resurrect.Transport.{Own, stopped}
use gmrender_resurrect.Transport.Variables.{variable_count, transport_var_meta}
use gmrender_resurrect.Abstract.{IsGood, abs}
use gmrender_resurrect.Transport.Consistency.{IsConsistent}

-- The values of the variables at the start.
pub created_container : Option Container
unfolding VariableContainer.new
created_container = VariableContainer.new variable_count transport_var_meta

module _ ⦃x : Ixml⦄ where
  -- `upnp_transport_get_service` at its first call.
  unfoldable pub get_service : x.Dom → Option Service
  unfolding created_container
  get_service dom = elim created_container [
    | none ↦ none
    | some c ↦ some (record { container = c; last_change = none; dom = dom; notified = [] })
  ]

module _ ⦃x : Ixml⦄ ⦃u : Upnp⦄ ⦃o : OutputModule⦄ where
  -- The file at its start, with a request and an output.
  abbrev pub at_start : Service → ActionEvent → o.Out → Session Own
  at_start service event out = record {
    event = event;
    service = service;
    own = record { transport_state = stopped; output = out };
  }

  pub created-IsGood :
      (service : Service) (c : Container)
      → VariableContainer.new variable_count transport_var_meta ≡ some c
      → service.container ≡ c
      → service.last_change ≡ none
      → IsReady transport_metas lc service
  unfolding transport_metas
  created-IsGood service c e ec el =
      new-IsReady variable_count transport_var_meta lc service c e ec el
        (sym length-transport_metas) (omega arith)

  -- The table of the transport's variables passes every `assert` of `VariableContainer_new`, so that
  -- the service is made; it is ready, and its variables are consistent with the state STOPPED.
  pub get_service-Returns :
      (dom : x.Dom) (event : ActionEvent) (out : o.Out)
      → (service : Service) × (get_service dom ≡ some service)
        × IsGood (at_start service event out)
        × IsConsistent (abs (at_start service event out))
  unfolding get_service created_container VariableContainer.new create_sorted_meta insert_meta
      transport_metas fill
  get_service-Returns dom event out = (
    _,
    refl,
    created-IsGood _ _ refl refl refl,
    record { used = tt; state_shown = refl; tracks_shown = refl; actions_shown = inl refl },
  )
