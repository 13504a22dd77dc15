-- ===== src/Config/LoadsFile.antt =====
-- A configuration file whose document states its settings is loaded, and gives them.
use factory_thing.Base.{
  ℕ, ◌+◌, ◌<◌, ◌≡◌, ◌⊎◌, inl, inr, ◌∙◌, refl, ap, sym, subst, true, false, some, List, [], ◌∷◌,
  ◌++◌, map, length, arith, append_assoc, append-nil, ◌||◌,
}
use factory_thing.CString.Defs.{Bytes, lit, strlen, strncmp_is_zero, matches}
use factory_thing.Json.{JsonLib}
use factory_thing.Config.Defs.{Node, Map, Group, Configuration}
use factory_thing.Config.Group.{show_node}
use factory_thing.Config.Nodes.{NodesComplete, AllBelow, AllBelow-append, insert_at_end}
use factory_thing.Config.Bounds.{FitsArrays, AllComplete}
use factory_thing.Config.Load.{
  go, load_device, load_server, load_group, load_groups, load_map, show_nodes, show_group,
  show_groups, config_path, c_string, read_file, folder_of, load_document, load, config, System,
  Loaded, chunk,
}
use factory_thing.Config.View.{section_there}
use factory_thing.Config.Meaning.{GroupSettings, numbered, group_of, GroupIs, DocumentIs}
use factory_thing.Config.Loads.{From, From-rest, ArrayOf-From, make_group_lem}
use factory_thing.Config.LoadsServer.{copy_lem, load_device_lem, load_server_lem}

module _ (J : JsonLib) (os : System) where
  load_groups_lem :
      (o : J.Ptr) (ss : List GroupSettings) (i : ℕ) (m : Map Group)
      → From J (GroupIs J) i ss o
      → AllBelow i m
      → load_groups J os o (length ss) i m ≡ go (m ++ numbered i (map group_of ss))
  unfolding load_groups load_group
  load_groups_lem o [] i m are below = ap go (sym (append-nil m))
  load_groups_lem o (s ∷ ss) i m are below =
      let (here, rest) = From-rest J (GroupIs J) i s ss o are in
      let inserted = insert_at_end i (group_of s) m below in
      rw (here.0, load_group, make_group_lem J s (J.array_get_idx o i) here, inserted)
        (load_groups_lem o ss (i + 1) (m ++ ((i, group_of s) ∷ [])) rest
            (AllBelow-append i (group_of s) m below)
          ∙ ap go (append_assoc m ((i, group_of s) ∷ []) (numbered (i + 1) (map group_of ss))))

  show_nodes_lem : (m : Map Node) → NodesComplete m → show_nodes J os m ≡ go tt
  unfolding show_nodes show_node
  show_nodes_lem [] h = refl
  show_nodes_lem ((k, n) ∷ m) ((id, topic, alias), h) = ground (arith, show_nodes_lem m h)

  show_groups_lem : (m : Map Group) → AllComplete m → show_groups J os m ≡ go tt
  unfolding show_groups show_group
  show_groups_lem [] h = refl
  show_groups_lem ((k, g) ∷ m) (one, h) =
      ground (arith, show_nodes_lem g.nodes one.nodes, show_groups_lem m h)

  -- What a document that states this configuration and these groups gives.
  abbrev pub stated : Configuration → List GroupSettings → Configuration → Loaded
  stated c ss c0 = record {
    configuration = record c { config_file = c0.config_file; config_folder = c0.config_folder };
    groups = numbered 0 (map group_of ss);
  }

  load_document_lem :
      (c c0 : Configuration) (ss : List GroupSettings) (doc : J.Ptr)
      → FitsArrays c
      → DocumentIs J c ss doc
      → AllComplete (numbered 0 (map group_of ss))
      → load_document J os doc (record { configuration = c0; groups = [] }) ≡ go (stated c ss c0)
  unfolding load_document load_map
  load_document_lem c c0 ss doc fits states whole =
      let (d, e, device) = states.device in
      let (o, e1, server) = states.server in
      let (a, e2, are) = states.node_map in
      rw
        (
          section_there J os doc d _ (load_device J os) c0 e,
          load_device_lem J os c c0 d fits.device_id device,
          section_there J os doc o _ (load_server J os) _ e1,
          load_server_lem J os c _ o fits server,
          section_there J os doc a _ (load_map J os) [] e2,
          are.0,
          load_groups_lem a ss 0 [] (ArrayOf-From J (GroupIs J) ss a are) _,
          show_groups_lem _ whole,
        )
        refl

  -- The path of the file for a name on the command line.
  abbrev pub Found : Bytes → Bytes → Bytes → Type 0
  Found folder file path =
      ((strncmp_is_zero file (lit "/") 1 ≡ true) × (path ≡ file))
      ⊎ ((strncmp_is_zero file (lit "/") 1 ≡ false)
          × (path ≡ folder ++ (b'/' ∷ file))
          × (strlen path < 128))

  config_path_lem :
      (folder file path : Bytes)
      → strlen file < 128
      → Found folder file path
      → config_path J os folder file ≡ go path
  unfolding config_path
  config_path_lem folder file path fits (inl (absolute, e)) =
      rw (absolute, e) (copy_lem 256 file (omega arith))
  config_path_lem folder file path fits (inr (relative, e, short)) =
      let long = subst (λ s. strlen s < 128) e short in
      rw
        (
          relative,
          copy_lem 256 (folder ++ (b'/' ∷ file)) (omega arith),
          copy_lem 128 (folder ++ (b'/' ∷ file)) long,
          e,
        )
        refl

  -- Where a flag for the file is given, the paths fit, the file opens, its text before any NUL is
  -- shorter than a megabyte, and json-c makes a document of it that states a configuration, whose
  -- texts fit their arrays, and groups, all of whose names, methods, intervals and flags for MQTT and
  -- TCP are given: config returns 0, with exactly this configuration and these groups, numbered from
  -- 0, in a program without groups. An empty alias stands for the topic.
  pub config_lem :
      (c c0 : Configuration) (ss : List GroupSettings) (arg flag file folder path content : Bytes)
      → matches flag (lit "-c") || matches flag (lit "--config") ≡ true
      → strlen file < 128
      → strlen os.exe < 256
      → folder_of os.exe ≡ some folder
      → strlen folder < 128
      → Found folder file path
      → os.fopen path ≡ some content
      → strlen (c_string content) < chunk
      → DocumentIs J c ss (J.parse (c_string content))
      → FitsArrays c
      → AllComplete (numbered 0 (map group_of ss))
      → config J os (arg ∷ flag ∷ file ∷ []) (record { configuration = c0; groups = [] })
        ≡ go (record {
          configuration = record c { config_file = path; config_folder = folder };
          groups = numbered 0 (map group_of ss);
        })
  unfolding config load read_file
  config_lem c c0 ss arg flag file folder path content flagged named exe up fits found opens short
        states texts whole =
      rw
        (
          flagged,
          copy_lem 128 file named,
          copy_lem 256 os.exe exe,
          up,
          copy_lem 128 folder fits,
          config_path_lem folder file path named found,
          opens,
          read_file,
          copy_lem chunk (c_string content) short,
        )
        (load_document_lem c _ ss (J.parse (c_string content)) texts states whole)
