-- ===== src/Config/Broken.antt =====
-- Files that `load` takes although they are not what it expects: text that is no JSON, and nodes
-- that lack a member.
use factory_thing.Base.{
  ℕ, ◌<◌, ◌≡◌, ◌∙◌, ap, true, false, some, List, [], ◌∷◌, arith, ok, bind-inv, ok-injective, sym,
}
use factory_thing.CString.Defs.{Bytes, lit, strlen, matches, strncmp_is_zero}
use factory_thing.Json.{JsonLib, NullHasNoMembers, object_type}
use factory_thing.Config.Defs.{Node, Group, insert}
use factory_thing.Config.Group.{dup, node_field, node_fields, read_node, show_node, read_nodes}
use factory_thing.Config.Load.{
  go, copy, c_string, folder_of, chunk, System, Loaded, section, show_groups, config_path,
  read_file, load_document, load,
}

copy_lem : (size : ℕ) (s : Bytes) → strlen s < size → copy size s ≡ go s
unfolding copy
copy_lem size s h = ground arith

module _ (J : JsonLib) (os : System) where
  absolute_path :
      (folder fn : Bytes)
      → strncmp_is_zero fn (lit "/") 1 ≡ true
      → strlen fn < 128
      → config_path J os folder fn ≡ go fn
  unfolding config_path
  absolute_path folder fn h k = ground arith

  read_file_lem :
      (path : Bytes) {content : Bytes}
      → os.fopen path ≡ some content
      → strlen (c_string content) < chunk
      → read_file J os path ≡ go (c_string content)
  unfolding read_file
  read_file_lem path e h = rw (e, read_file) (copy_lem chunk _ h)

  load_document-null :
      (l : Loaded) → NullHasNoMembers J → l.groups ≡ [] → load_document J os J.null l ≡ go l
  unfolding load_document show_groups
  load_document-null l no_members e =
      rw (no_members (lit "device-configuration"), section)
        (rw (no_members (lit "server-configuration"), section)
          (rw (no_members (lit "node-map"), section) (rw e)))

  -- A file that json-c does not parse is loaded all the same: `load` returns 0, with no group, and
  -- with nothing set but the folder. Here the path is absolute, the file opens, and the texts fit.
  pub load_unparsed :
      (l : Loaded) {folder content : Bytes}
      → NullHasNoMembers J
      → l.groups ≡ []
      → strncmp_is_zero l.configuration.config_file (lit "/") 1 ≡ true
      → strlen l.configuration.config_file < 128
      → strlen os.exe < 256
      → folder_of os.exe ≡ some folder
      → strlen folder < 128
      → os.fopen l.configuration.config_file ≡ some content
      → strlen (c_string content) < chunk
      → J.parse (c_string content) ≡ J.null
      → load J os l
        ≡ go (record l { configuration = record l.configuration { config_folder = folder } })
  unfolding load
  load_unparsed l {folder} {content} no_members e abs k1 k2 f k3 o k4 p =
      rw (copy_lem 256 os.exe k2) (
        rw f (
          rw (copy_lem 128 folder k3) (
            rw (absolute_path folder _ abs k1)
              (rw (read_file_lem _ o k4) (rw p (load_document-null _ no_members e))))))

module _ (J : JsonLib) where
  -- No key of the object is read as "alias".
  abbrev pub NoAlias : List (Bytes × J.Ptr) → Type 0
  NoAlias [] = Unit
  NoAlias ((key, _) ∷ es) = (matches key (lit "alias") ≡ false) × NoAlias es

  node_fields-alias :
      (n : Node) (es : List (Bytes × J.Ptr)) {n' : Node}
      → NoAlias es
      → node_fields J n es ≡ ok n'
      → n'.alias ≡ n.alias
  unfolding node_fields
  node_fields-alias n [] none_there h = ground arith
  node_fields-alias n ((key, v) ∷ es) (no_alias, none_there) h =
      let (n1, e, r) = bind-inv (node_field J n key v) (λ x. node_fields J x es) h in
      node_fields-alias n1 es none_there r ∙ (unfold node_field dup in ground arith)

  read_node-alias :
      (n : Node) (p : J.Ptr) {n' : Node}
      → J.get_type p ≡ object_type
      → NoAlias (J.entries p)
      → read_node J n p ≡ ok n'
      → n'.alias ≡ n.alias
  unfolding read_node
  read_node-alias n p t no_alias h =
      node_fields-alias n (J.entries p) no_alias (rw (t, read_node) at h)

  -- A node without "alias" does not fall back on its topic: in an array of two elements, of which
  -- the second is an object with no key that is read as "alias", both nodes have the alias of the
  -- first.
  pub read_nodes_stale :
      (val : J.Ptr) (n : Node) (g : Group) {g' : Group}
      → g.nodes ≡ []
      → J.get_type (J.array_get_idx val 1) ≡ object_type
      → NoAlias (J.entries (J.array_get_idx val 1))
      → read_nodes J val 2 0 n g ≡ ok g'
      → (a : Node) × (b : Node) × (g'.nodes ≡ (0, a) ∷ (1, b) ∷ []) × (b.alias ≡ a.alias)
  unfolding read_nodes insert
  read_nodes_stale val n g e t no_alias h =
      let (a, ea, h1) = bind-inv (read_node J n (J.array_get_idx val 0)) _ h in
      let (u, ua, h2) = bind-inv (show_node J a) _ h1 in
      let (b, eb, h3) = bind-inv (read_node J a (J.array_get_idx val 1)) _ h2 in
      let (v, ub, h4) = bind-inv (show_node J b) _ h3 in
      (
        a,
        b,
        ap Group.nodes (sym (ok-injective h4)) ∙ ap (λ m. insert 1 b (insert 0 a m)) e,
        read_node-alias a (J.array_get_idx val 1) t no_alias eb,
      )
