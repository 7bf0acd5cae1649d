-- ===== src/LastChangeBuilder.antt =====
-- src/variable-container.c, second part: the builder of the LastChange document.
use gmrender_resurrect.Prelude.{Bool, ◌||◌, Option, none, some, if◌then◌else◌}
use gmrender_resurrect.Prelude.Text.{Bytes, codes, str_eq}
use gmrender_resurrect.XmlDoc.{
  Ixml, xmldoc_new, xmldoc_free, xmldoc_tostring, xmldoc_new_topelement, xmlelement_set_attribute,
  add_attributevalue_element,
}

-- The variables whose change element names the channel.
pub has_channel : Bytes → Bool
has_channel name =
    str_eq name (codes "Volume")
    || str_eq name (codes "VolumeDB")
    || str_eq name (codes "Mute")
    || str_eq name (codes "Loudness")

module _ ⦃x : Ixml⦄ where
  -- `struct upnp_last_change_builder`. The document and its instance element are set and reset
  -- together, so one field holds both: `change_event_doc` and `instance_element`.
  pub record Builder : Type 0 where
    pub xml_namespace : Option Bytes
    pub document : Option (x.Node × x.Node)

  -- `UPnPLastChangeBuilder_new`
  unfoldable pub new : Option Bytes → Builder
  new xml_namespace = record { xml_namespace = xml_namespace; document = none }

  -- The document to add to, made if there is none yet.
  pub open_document : Builder → x.Dom → x.Node × x.Node × x.Dom
  open_document b dom = elim b.document [
    | some (doc, instance_element) ↦ (doc, instance_element, dom)
    | none ↦
        let (doc, dom1) = xmldoc_new dom in
        let (toplevel, dom2) = xmldoc_new_topelement doc (codes "Event") b.xml_namespace dom1 in
        let (instance_element, dom3) =
          add_attributevalue_element doc toplevel (codes "InstanceID") (codes "val") (codes "0")
            dom2 in
        (doc, instance_element, dom3)
  ]

  -- `UPnPLastChangeBuilder_add`
  unfoldable pub add : Builder → Bytes → Bytes → x.Dom → Builder × x.Dom
  unfolding open_document has_channel
  add b name value dom =
      let (doc, instance_element, dom1) = open_document b dom in
      let (xml_value, dom2) =
        add_attributevalue_element doc instance_element name (codes "val") value dom1 in
      let dom3 =
        if has_channel name
        then xmlelement_set_attribute doc xml_value (codes "channel") (codes "Master") dom2
        else dom2 in
      (record b { document = some (doc, instance_element) }, dom3)

  -- `UPnPLastChangeBuilder_to_xml`
  unfoldable pub to_xml : Builder → x.Dom → Option Bytes × Builder × x.Dom
  to_xml b dom = elim b.document [
    | none ↦ (none, b, dom)
    | some (doc, _) ↦ (xmldoc_tostring doc dom, record b { document = none }, xmldoc_free doc dom)
  ]

  -- `UPnPLastChangeBuilder_delete`
  unfoldable pub delete : Builder → x.Dom → x.Dom
  delete b dom = elim b.document [ none ↦ dom | some (doc, _) ↦ xmldoc_free doc dom ]
