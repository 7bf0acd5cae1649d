-- ===== src/XmlDoc.antt =====
-- src/xmldoc.c over libixml. The library is a parameter: `Dom` is the state of all its documents,
-- and a node is a handle into it. Its calls are taken to succeed (no allocation failure), except
-- where the code tests the result.
use gmrender_resurrect.Prelude.{Option, none, some}
use gmrender_resurrect.Prelude.Text.{Bytes, codes}

-- The calls of <ixml.h> that the program makes.
pub record Ixml : Type 1 where
  pub Dom : Type 0
  pub Node : Type 0
  pub create_document : Dom → Node × Dom
  pub create_element : Node → Bytes → Dom → Node × Dom
  pub create_element_ns : Node → Bytes → Bytes → Dom → Node × Dom
  pub create_text_node : Node → Bytes → Dom → Node × Dom
  pub append_child : Node → Node → Dom → Dom
  pub set_attribute : Node → Bytes → Bytes → Dom → Dom
  pub document_free : Node → Dom → Dom
  pub document_to_string : Node → Dom → Option Bytes

module _ ⦃x : Ixml⦄ where
  unfoldable pub xmldoc_new : x.Dom → x.Node × x.Dom
  xmldoc_new dom = x.create_document dom

  unfoldable pub xmldoc_free : x.Node → x.Dom → x.Dom
  xmldoc_free doc dom = x.document_free doc dom

  unfoldable pub xmldoc_tostring : x.Node → x.Dom → Option Bytes
  xmldoc_tostring doc dom = x.document_to_string doc dom

  unfoldable pub xmldoc_new_topelement : x.Node → Bytes → Option Bytes → x.Dom → x.Node × x.Dom
  xmldoc_new_topelement doc element_name (some xmlns) dom =
      let (element, dom1) = x.create_element_ns doc xmlns element_name dom in
      let dom2 = x.set_attribute element (codes "xmlns") xmlns dom1 in
      (element, x.append_child doc element dom2)
  xmldoc_new_topelement doc element_name none dom =
      let (element, dom1) = x.create_element doc element_name dom in
      (element, x.append_child doc element dom1)

  unfoldable pub xmlelement_new : x.Node → Bytes → x.Dom → x.Node × x.Dom
  xmlelement_new doc element_name dom = x.create_element doc element_name dom

  unfoldable pub xmlelement_add_element : x.Node → x.Node → x.Node → x.Dom → x.Dom
  xmlelement_add_element doc parent child dom = x.append_child parent child dom

  unfoldable pub xmlelement_add_text : x.Node → x.Node → Bytes → x.Dom → x.Dom
  xmlelement_add_text doc parent text dom =
      let (text_node, dom1) = x.create_text_node doc text dom in
      x.append_child parent text_node dom1

  unfoldable pub xmlelement_set_attribute : x.Node → x.Node → Bytes → Bytes → x.Dom → x.Dom
  xmlelement_set_attribute doc element name value dom = x.set_attribute element name value dom

  unfoldable pub add_value_element : x.Node → x.Node → Bytes → Bytes → x.Dom → x.Dom
  unfolding xmlelement_new xmlelement_add_text xmlelement_add_element
  add_value_element doc parent tagname value dom =
      let (top, dom1) = xmlelement_new doc tagname dom in
      let dom2 = xmlelement_add_text doc top value dom1 in
      xmlelement_add_element doc parent top dom2

  unfoldable pub add_attributevalue_element :
      x.Node → x.Node → Bytes → Bytes → Bytes → x.Dom → x.Node × x.Dom
  unfolding xmlelement_new xmlelement_set_attribute xmlelement_add_element
  add_attributevalue_element doc parent tagname attribute_name value dom =
      let (top, dom1) = xmlelement_new doc tagname dom in
      let dom2 = xmlelement_set_attribute doc top attribute_name value dom1 in
      (top, xmlelement_add_element doc parent top dom2)
