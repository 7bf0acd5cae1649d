-- ===== src/ConnectionManager/MimeTypes.antt =====
-- src/upnp_connmgr.c: the list of the MIME types, and the filter that `connmgr_init` puts on it. The
-- singly linked lists of GLib are a parameter.
pub mod Filtering
pub mod Roots
pub mod Registration
pub mod FilterText
use gmrender_resurrect.Prelude.{
  ℕ, zero, suc, Bool, true, false, ◌&&◌, Option, none, some, List, [], ◌∷◌, ◌++◌, ◌==◌,
  if◌then◌else◌, length, take, ◌-◌,
}
use gmrender_resurrect.Prelude.Int.{ℤ, pos}
use gmrender_resurrect.Prelude.Run.{Run, ◌>>=◌, ◌>>◌, pure}
use gmrender_resurrect.XmlDoc.{Ixml}
use gmrender_resurrect.LastChangeCollector
use gmrender_resurrect.LastChangeCollector.{Service}
use gmrender_resurrect.ConnectionManager.Variables.{variable_num, sink_proto_info}
use gmrender_resurrect.Prelude.Text.{Bytes, codes, str_eq, is_empty}

-- A link of a list: what stands before it, its data, and what stands behind.
pub record Link : Type 0 where
  pub before : List Bytes
  pub data_of : Bytes
  pub after : List Bytes

-- `g_slist_find_custom` with the elements for which the comparison gives 0, `g_slist_delete_link`,
-- and `g_slist_insert_sorted` by `strcmp`.
pub record Slist : Type 0 where
  pub find_custom : (Bytes → Bool) → List Bytes → Option Link
  pub delete_link : Link → List Bytes
  pub insert_sorted : Bytes → List Bytes → List Bytes

-- `g_compare_mime_root` is 0: the shorter text begins the longer one.
unfoldable pub same_root : Bytes → Bytes → Bool
same_root [] b = true
same_root (x ∷ a) [] = true
same_root (x ∷ a) (y ∷ b) = (x == y) && same_root a b

-- `mime_type_filters_t`
pub record MimeTypeFilters : Type 0 where
  pub allowed_roots : List Bytes
  pub added_types : List Bytes
  pub removed_types : List Bytes

-- `strtok_r` with ",": the pieces that are not empty; `token` is the piece begun, backwards.
unfoldable pub tokens : Bytes → Bytes → List Bytes
tokens [] token = if is_empty token then [] else token ∷ []
tokens (c ∷ s) token =
    let rest = tokens s [] in
    let longer = tokens s (token ++ (c ∷ [])) in
    if c == b',' then (if is_empty token then rest else token ∷ rest) else longer

-- The body of the loop of `connmgr_parse_mime_filter_string`.
unfoldable pub sort_token : Bytes → MimeTypeFilters → MimeTypeFilters
sort_token [] f = record f { allowed_roots = [] ∷ f.allowed_roots }
sort_token (c ∷ token) f =
    if c == b'+'
    then record f { added_types = token ∷ f.added_types }
    else if c == b'-'
    then record f { removed_types = token ∷ f.removed_types }
    else record f { allowed_roots = (c ∷ token) ∷ f.allowed_roots }

unfoldable pub sort_tokens : List Bytes → MimeTypeFilters → MimeTypeFilters
unfolding sort_token
sort_tokens [] f = f
sort_tokens (t ∷ ts) f = sort_tokens ts (sort_token t f)

-- `connmgr_parse_mime_filter_string`
unfoldable pub parse_filter : Option Bytes → MimeTypeFilters
unfolding tokens sort_tokens
parse_filter none = record { allowed_roots = []; added_types = []; removed_types = [] }
parse_filter (some filter_string) =
    sort_tokens (tokens filter_string [])
      (record { allowed_roots = []; added_types = []; removed_types = [] })

-- One entry of the protocol info.
abbrev proto_entry : Bytes → Bytes
proto_entry mime_type = codes "http-get:*:" ++ mime_type ++ codes ":*,"

unfoldable pub proto_entries : List Bytes → Bytes
proto_entries [] = []
proto_entries (t ∷ ts) = proto_entry t ++ proto_entries ts

-- The value that `connmgr_init` gives to SinkProtocolInfo: none if no type is left, and else the
-- entries without the last comma.
unfoldable pub proto_info : List Bytes → Option Bytes
unfolding proto_entries
proto_info types =
    let text = proto_entries types in
    if is_empty text then none else some (take (length text - 1) text)

module _ ⦃g : Slist⦄ where
  -- `add_mime_type`
  unfoldable pub add_mime_type : Bytes → List Bytes → Bool × List Bytes
  add_mime_type mime_type types = elim (g.find_custom (str_eq mime_type) types) [
    | some _ ↦ (false, types)
    | none ↦ (true, g.insert_sorted mime_type types)
  ]

  -- `remove_mime_type` behind its test of the list.
  abbrev remove_found : Option Link → List Bytes → Bool × List Bytes
  remove_found none types = (false, types)
  remove_found (some entry) types = (true, g.delete_link entry)

  unfoldable pub remove_mime_type : Bytes → List Bytes → Bool × List Bytes
  remove_mime_type mime_type [] = (false, [])
  remove_mime_type mime_type (t ∷ ts) =
      remove_found (g.find_custom (str_eq mime_type) (t ∷ ts)) (t ∷ ts)

  -- `register_mime_type_internal`
  abbrev pub register_internal : Bytes → List Bytes → List Bytes
  register_internal mime_type types = (add_mime_type mime_type types).1

  abbrev register_if : Bool → Bytes → List Bytes → List Bytes
  register_if true mime_type types = register_internal mime_type types
  register_if false mime_type types = types

  -- The part of `register_mime_type` behind the case of audio/mpeg.
  unfoldable pub register_aliases : Bytes → List Bytes → List Bytes
  unfolding add_mime_type
  register_aliases t types =
      let types1 = register_if (str_eq (codes "audio/x-alac") t) (codes "audio/alac") types in
      let types2 = register_if (str_eq (codes "audio/x-aiff") t) (codes "audio/aiff") types1 in
      let types3 = register_if (str_eq (codes "audio/x-m4a") t) (codes "audio/m4a") types2 in
      register_if (str_eq (codes "audio/x-m4a") t) (codes "audio/mp4") types3

  -- `register_mime_type`, which calls itself at most `depth` deep.
  unfoldable pub register_fuel : ℕ → Bytes → List Bytes → List Bytes
  unfolding register_aliases
  register_fuel zero t types = types
  register_fuel (suc depth) t types =
      let own = register_internal t types in
      let mpeg = register_fuel depth (codes "audio/L16;rate=44100;channels=2") (
        register_internal (codes "audio/x-scpls") (register_internal (codes "audio/x-mpeg") own)) in
      register_aliases t (if str_eq (codes "audio/mpeg") t then mpeg else own)

  -- The call of itself is for a type that does not call again.
  unfoldable pub register_mime_type : Bytes → List Bytes → List Bytes
  unfolding register_fuel
  register_mime_type = register_fuel 2

  -- The loop of `connmgr_filter_mime_type_root` at the link with `kept` before it and `rest` from it
  -- on, in the list `types`.
  unfoldable pub filter_from : List Bytes → List Bytes → List Bytes → List Bytes → List Bytes
  filter_from roots kept [] types = types
  filter_from roots kept (e ∷ rest) types = elim (g.find_custom (same_root e) roots) [
    | some _ ↦ filter_from roots (kept ++ (e ∷ [])) rest types
    | none ↦
        filter_from roots kept rest
          (g.delete_link (record { before = kept; data_of = e; after = rest }))
  ]

  -- `connmgr_filter_mime_type_root`: no roots allow every type.
  unfoldable pub filter_roots : List Bytes → List Bytes → List Bytes
  unfolding filter_from
  filter_roots [] types = types
  filter_roots (r ∷ roots) types = filter_from (r ∷ roots) [] types types

  -- `g_slist_foreach` with `g_add_mime_type` and with `g_remove_mime_type`.
  unfoldable pub add_all : List Bytes → List Bytes → List Bytes
  unfolding add_mime_type
  add_all [] types = types
  add_all (t ∷ ts) types = add_all ts (add_mime_type t types).1

  unfoldable pub remove_all : List Bytes → List Bytes → List Bytes
  unfolding remove_mime_type
  remove_all [] types = types
  remove_all (t ∷ ts) types = remove_all ts (remove_mime_type t types).1

  -- The types that `connmgr_init` is left with.
  unfoldable pub filtered : Option Bytes → List Bytes → List Bytes
  unfolding parse_filter filter_roots add_all remove_all
  filtered mime_filter_string types =
      let f = parse_filter mime_filter_string in
      remove_all f.removed_types (add_all f.added_types (filter_roots f.allowed_roots types))

module _ ⦃x : Ixml⦄ ⦃g : Slist⦄ where
  -- `connmgr_init` on the types that are registered.
  unfoldable pub connmgr_init : Option Bytes → List Bytes → Run Service ℤ
  unfolding filtered proto_info LastChangeCollector.change
  connmgr_init mime_filter_string types = elim (proto_info (filtered mime_filter_string types)) [
    | none ↦ pure (pos 0)
    | some text ↦
        LastChangeCollector.change (variable_num sink_proto_info) (some text) >> pure (pos 0)
  ]
