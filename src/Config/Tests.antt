-- ===== src/Config/Tests.antt =====
-- The configuration read from a small document, and the theorems at concrete documents.
use factory_thing.Base.{◌≡◌, ◌≢◌, refl, [], ◌∷◌, ok}
use factory_thing.Int.{pos}
use factory_thing.CString.Defs.{equal, strncmp_is_zero}
use factory_thing.Config.Defs.{
  Node, unset_node, insert, unset_group, Configuration, zero_configuration,
}
use factory_thing.Config.Group.{
  make_group, group_field, group_fields, group_nodes, read_nodes, read_node, node_fields,
  node_field, show_node,
}
use factory_thing.Config.Load.{
  go, refused, load_document, load_device, load_server, load_opcua, load_mqtt, load_amqp, load_tcp,
  load_map, load_groups, load_group, show_groups, show_group, show_nodes, config_path, read_file,
  load, config, c_string, folder_of, copy,
}
use factory_thing.Config.View.{IsView, load_document-IsView}
use factory_thing.Config.Required.{Required, load_server-members}
use factory_thing.Config.Broken.{read_nodes_stale}
use factory_thing.Config.Sample.{
  node_array, group_doc, server_doc, document, J, os, start, argv, both_nodes, group0, expected,
  arr, nil, cons,
}

make_group_run : make_group J group_doc unset_group ≡ ok (pos 0, group0)
unfolding make_group group_fields group_field group_nodes read_nodes read_node node_fields
    node_field show_node insert strncmp_is_zero
make_group_run = refl

pub config_run : config J os argv start ≡ go expected
unfolding config load config_path read_file folder_of c_string copy load_document load_device
    load_server load_opcua load_mqtt load_amqp load_tcp load_map load_groups load_group show_groups
    show_group show_nodes make_group group_fields group_field group_nodes read_nodes read_node
    node_fields node_field show_node insert strncmp_is_zero equal
config_run = refl

group_nodes_run :
    group_nodes J unset_group node_array ≡ ok (record unset_group { nodes = both_nodes })
unfolding group_nodes read_nodes read_node node_fields node_field show_node insert strncmp_is_zero
group_nodes_run = refl

load_server-members_example :
    ((c' : Configuration)
      → load_server J os server_doc zero_configuration ≡ go c'
      → Required J server_doc)
    × (Required J server_doc → load_server J os server_doc zero_configuration ≢ refused)
load_server-members_example = load_server-members J os server_doc zero_configuration

read_nodes_run :
    read_nodes J node_array 2 0 unset_node unset_group
    ≡ ok (record unset_group { nodes = both_nodes })
unfolding read_nodes read_node node_fields node_field show_node insert strncmp_is_zero
read_nodes_run = refl

read_nodes_stale_example :
    (a : Node) × (b : Node) × (both_nodes ≡ (0, a) ∷ (1, b) ∷ []) × (b.alias ≡ a.alias)
unfolding strncmp_is_zero
read_nodes_stale_example =
    read_nodes_stale J node_array unset_node unset_group refl refl (refl, (refl, tt)) read_nodes_run

document_run :
    load_document J os document start
    ≡ go (record {
      configuration = record expected.configuration { config_file = []; config_folder = [] };
      groups = expected.groups;
    })
unfolding load_document load_device load_server load_opcua load_mqtt load_amqp load_tcp load_map
    load_groups load_group show_groups show_group show_nodes copy make_group group_fields
    group_field group_nodes read_nodes read_node node_fields node_field show_node insert
    strncmp_is_zero equal
document_run = refl

load_document-IsView_example : IsView J os (arr (cons group_doc nil)) expected.groups
unfolding equal
load_document-IsView_example =
    load_document-IsView J os document (arr (cons group_doc nil)) start _ refl refl document_run
