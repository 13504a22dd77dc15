-- ===== src/NodeId/Tests.antt =====
-- Node ids of the configuration, and the theorems at concrete ids.
use factory_thing.Base.{◌≡◌, refl, some, ◌++◌, arith, ok, fault, out_of_range}
use factory_thing.CString.Defs.{Bytes, lit, equal, decimal, atoi}
use factory_thing.NodeId.Defs.{
  unset_id, numeric_type, string_type, numeric, string, split, split_onto, scan, scan_pieces,
  get_ua_node_id,
}
use factory_thing.NodeId.Split.{IsSplit, split-IsSplit}
use factory_thing.NodeId.Text.{
  before, ns_text, get_ua_node_id-numeric, get_ua_node_id-string, get_ua_node_id_fault,
}

abbrev copy : Bytes → Bytes
copy s = s

numeric_id :
    get_ua_node_id copy (lit "ns=2;i=2258") unset_id
    ≡ ok (record {
      namespace_index = some 2;
      identifier_type = some numeric_type;
      identifier = some (numeric 2258);
    })
unfolding get_ua_node_id scan scan_pieces split_onto equal atoi
numeric_id = refl

split-IsSplit_example : IsSplit b';' (lit "ns=2;i=5;") (split (lit "ns=2;i=5;") b';')
split-IsSplit_example = split-IsSplit (lit "ns=2;i=5;") b';'

get_ua_node_id-numeric_example :
    get_ua_node_id copy (ns_text 2 (lit "i=" ++ decimal 2258)) unset_id
    ≡ ok (record {
      namespace_index = some 2;
      identifier_type = some numeric_type;
      identifier = some (numeric 2258);
    })
get_ua_node_id-numeric_example =
    get_ua_node_id-numeric copy 2 2258 unset_id (omega arith) (omega arith)

get_ua_node_id-string_example :
    get_ua_node_id copy (ns_text 1 (lit "s=" ++ lit "the.answer")) unset_id
    ≡ ok (record {
      namespace_index = some 1;
      identifier_type = some string_type;
      identifier = some (string (copy (before b'=' (lit "the.answer"))));
    })
get_ua_node_id-string_example =
    get_ua_node_id-string copy 1 (lit "the.answer") unset_id (omega arith) (λ e. cc)
      (refl, (refl, (refl, (refl, (refl, (refl, (refl, (refl, (refl, (refl, tt))))))))))

get_ua_node_id_fault_example :
    get_ua_node_id copy (ns_text 2 (lit "s=a;b")) unset_id ≡ fault out_of_range
unfolding split_onto
get_ua_node_id_fault_example = get_ua_node_id_fault copy 2 (lit "s=a;b") unset_id (omega arith)
