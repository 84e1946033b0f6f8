-- ===== src/Json/Serializer/Types/Documents.antt =====
-- The keys of what serializeSourceLocation and serializeWType (src/json/AWSTSerializer.cpp) write.
use puya_sol.Prelude.{Option, none, some, List, [], ◌∷◌, String, string_eq}
use puya_sol.Awst.Location.{SourceLocation}
use puya_sol.Awst.WType.{
  WType, basic, bytes, arc4_uint_n, arc4_ufixed_nxm, arc4_tuple, arc4_dynamic_array,
  arc4_static_array, arc4_struct, reference_array, w_tuple, w_inner_transaction_fields,
  w_inner_transaction, WTypes, nil, cons, StructFields, no_fields, field, arc4_bool_type,
}
use puya_sol.Json.Value.{Json, json_null, text, no_members, assign_all, AllDocuments, IsDocument}
use puya_sol.Json.Value.Outcome.{
  number_or_null-IsDocument, nonempty_or_null-IsDocument, text_items-AllDocuments, Documents,
  assign_all-AllKeyed,
}
use puya_sol.Json.Serializer.Types.{
  serialize_source_location, location_members, serialize_wtype, type_document, type_members,
  type_header, serialize_types, serialize_fields,
}

pub serialize_source_location-IsDocument :
    (loc : SourceLocation) → IsDocument (serialize_source_location loc)
unfolding IsDocument serialize_source_location Documents
serialize_source_location-IsDocument loc =
    assign_all-AllKeyed no_members (location_members loc) tt (
      nonempty_or_null-IsDocument loc.file,
      (
        tt,
        (
          tt,
          (
            tt,
            (number_or_null-IsDocument loc.column, (number_or_null-IsDocument loc.end_column, tt)),
          ),
        ),
      ),
    )

type_document-IsDocument :
    (t : WType) (es : List (String × Json)) → Documents es → IsDocument (type_document t es)
unfolding IsDocument type_document Documents
type_document-IsDocument t es h =
    assign_all-AllKeyed _ es
      (assign_all-AllKeyed no_members (type_header t) tt (tt, (tt, (tt, tt)))) h

mutual
  unfolding IsDocument type_members Documents type_document assign_all

  type_members-Documents : (t : WType) → Documents (type_members t)
  type_members-Documents (basic arc4_bool_type) = (tt, (tt, tt))
  type_members-Documents (basic _) = tt
  type_members-Documents (bytes _ n) = (number_or_null-IsDocument n, tt)
  type_members-Documents (arc4_uint_n _ n alias) =
      (tt, (nonempty_or_null-IsDocument alias, (tt, tt)))
  type_members-Documents (arc4_ufixed_nxm _ n m) = (tt, (tt, (tt, (tt, tt))))
  type_members-Documents (arc4_tuple _ ts) = (serialize_types-AllDocuments ts, (tt, (tt, tt)))
  type_members-Documents (arc4_dynamic_array _ t alias) = (
    type_document-IsDocument t (type_members t) (type_members-Documents t),
    (nonempty_or_null-IsDocument alias, (tt, tt)),
  )
  type_members-Documents (arc4_static_array _ t n alias) = (
    type_document-IsDocument t (type_members t) (type_members-Documents t),
    (tt, (nonempty_or_null-IsDocument alias, (tt, tt))),
  )
  type_members-Documents (arc4_struct _ n fs frozen) =
      (serialize_fields-AllDocuments fs, (tt, (tt, (tt, (tt, tt)))))
  type_members-Documents (reference_array _ t flag size) = (
    type_document-IsDocument t (type_members t) (type_members-Documents t),
    (number_or_null-IsDocument size, (tt, tt)),
  )
  type_members-Documents (w_tuple _ ts none n) = (serialize_types-AllDocuments ts, (tt, (tt, tt)))
  type_members-Documents (w_tuple _ ts (some names) n) =
      (serialize_types-AllDocuments ts, (text_items-AllDocuments names, (tt, tt)))
  type_members-Documents (w_inner_transaction_fields _ t) = (number_or_null-IsDocument t, tt)
  type_members-Documents (w_inner_transaction _ t) = (number_or_null-IsDocument t, tt)

  serialize_types-AllDocuments : (ts : WTypes) → AllDocuments (serialize_types ts)
  serialize_types-AllDocuments nil = tt
  serialize_types-AllDocuments (cons t ts) = (
    type_document-IsDocument t (type_members t) (type_members-Documents t),
    serialize_types-AllDocuments ts,
  )

  serialize_fields-AllDocuments : (fs : StructFields) → AllDocuments (serialize_fields fs)
  serialize_fields-AllDocuments no_fields = tt
  serialize_fields-AllDocuments (field k t fs) = (
    assign_all-AllKeyed no_members
        (("name", text k)
          ∷ ("wtype", type_document t (type_members t))
          ∷ ("description", json_null)
          ∷ [])
        tt (tt, (type_document-IsDocument t (type_members t) (type_members-Documents t), (tt, tt))),
    serialize_fields-AllDocuments fs,
  )

pub serialize_wtype-IsDocument : (t : Option WType) → IsDocument (serialize_wtype t)
unfolding IsDocument type_members
serialize_wtype-IsDocument none = tt
serialize_wtype-IsDocument (some t) =
    type_document-IsDocument t (type_members t) (type_members-Documents t)
