-- ===== src/Config/LoadsTests.antt =====
-- A document that states a configuration and one group, and the theorem at it.
use factory_thing.Base.{
  ℕ, zero, suc, ◌≡◌, refl, subst, some-injective, true, false, some, [], ◌∷◌, arith, get_elem?, inl,
  map,
}
use factory_thing.CString.Defs.{lit, equal, strncmp_is_zero}
use factory_thing.Int.{pos}
use factory_thing.Config.Defs.{Configuration, zero_configuration}
use factory_thing.Config.Load.{go, config, c_string, folder_of}
use factory_thing.Config.Bounds.{FitsArrays, AllComplete}
use factory_thing.Config.Meaning.{
  NodeSettings, name_is, enable_is, method_is, interval_usec_is, topic_is, format_is, mqtt_is,
  tcp_is, GroupSettings, numbered, group_of, ArrayOf, NodeIs, GroupIs, DocumentIs,
}
use factory_thing.Config.LoadsFile.{config_lem}
use factory_thing.Config.Sample.{arr, cons, nil, os, argv, expected}
use factory_thing.Config.Stated.{stated_J, stated_node, stated_group, stated_document}

abbrev pub stated_configuration : Configuration
stated_configuration = record expected.configuration { device_id = lit "sensor0" }

abbrev node : NodeSettings
node = record { id = lit "ns=2;i=5"; topic = lit "temp"; alias = [] }

abbrev pub settings : GroupSettings
settings = record {
  before =
      name_is (lit "g")
      ∷ enable_is true
      ∷ method_is (lit "poll")
      ∷ interval_usec_is (pos 1000)
      ∷ [];
  nodes = node ∷ [];
  after = topic_is (lit "p") ∷ format_is (lit "kv") ∷ mqtt_is true ∷ tcp_is false ∷ [];
}

node-NodeIs : NodeIs stated_J node stated_node
node-NodeIs = (refl, _, _, _, refl, refl, refl, refl)

-- An array of one element.
one-ArrayOf :
    {A : Type 0} (P : A → stated_J.Ptr → Type 0) (x : A) (p : stated_J.Ptr)
    → stated_J.array_length p ≡ 1
    → P x (stated_J.array_get_idx p 0)
    → ArrayOf stated_J P (x ∷ []) p
one-ArrayOf {A = A} P x p long here = (long, elements)
  where
    elements : (i : ℕ) (y : A) → get_elem? (x ∷ []) i ≡ some y → P y (stated_J.array_get_idx p i)
    elements zero y e = subst (λ y. P y (stated_J.array_get_idx p 0)) (some-injective e) here
    elements (suc i) y e = cc

group-GroupIs : GroupIs stated_J settings stated_group
group-GroupIs = (
  refl,
  _ ∷ _ ∷ _ ∷ _ ∷ [],
  _ ∷ _ ∷ _ ∷ _ ∷ [],
  _,
  refl,
  ((refl, refl), ((refl, refl), ((refl, refl), ((refl, refl), _)))),
  ((refl, refl), ((refl, refl), ((refl, refl), ((refl, refl), _)))),
  refl,
  one-ArrayOf (NodeIs stated_J) node (arr (cons stated_node nil)) refl node-NodeIs,
)

pub document-DocumentIs : DocumentIs stated_J stated_configuration (settings ∷ []) stated_document
unfolding equal
document-DocumentIs = record {
  device = (_, refl, (_, refl, (_, refl, refl)));
  server = (
    _,
    refl,
    record {
      opcua = (_, refl, ((_, refl, refl), (_, refl, refl), (_, refl, refl), (_, refl, refl)));
      mqtt_broker = (_, refl, ((_, refl, refl), (_, refl, refl), (_, refl, refl), (_, refl, refl)));
      amqp_broker = (_, refl, ((_, refl, refl), (_, refl, refl), (_, refl, refl), (_, refl, refl)));
      tcp_server = (
        _,
        refl,
        ((_, refl, refl), (_, refl, refl), (_, refl, refl), (_, refl, refl), (_, refl, refl)),
      );
    },
  );
  node_map = (
    _,
    refl,
    one-ArrayOf (GroupIs stated_J) settings (arr (cons stated_group nil)) refl group-GroupIs,
  );
}

pub stated-FitsArrays : FitsArrays stated_configuration
stated-FitsArrays = record {
  config_file = omega arith;
  config_folder = omega arith;
  device_id = omega arith;
  ua_server_address = omega arith;
  method = omega arith;
  mqtt_brocker_ip = omega arith;
  topic_base = omega arith;
  tcp_brocker_ip = omega arith;
  amqp_ip = omega arith;
  amqp_topic_base = omega arith;
}

pub settings-AllComplete : AllComplete (numbered 0 (map group_of (settings ∷ [])))
settings-AllComplete = (
  record { name = _; method = _; interval_usec = _; mqtt = _; tcp = _; nodes = ((_, _, _), _) },
  _,
)

config_lem_example :
    config stated_J os argv (record { configuration = zero_configuration; groups = [] })
    ≡ go (record {
      configuration = record stated_configuration {
        config_file = lit "/etc/c.json";
        config_folder = lit "/opt";
      };
      groups = numbered 0 (map group_of (settings ∷ []));
    })
unfolding equal strncmp_is_zero folder_of c_string
config_lem_example =
    config_lem stated_J os stated_configuration zero_configuration (settings ∷ []) (lit "bridge")
      (lit "-c") (lit "/etc/c.json") (lit "/opt") (lit "/etc/c.json") (lit "{}") refl (omega arith)
      (omega arith) refl (omega arith) (inl (refl, refl)) refl (omega arith) document-DocumentIs
      stated-FitsArrays settings-AllComplete
