-- ===== src/Config/Bounds.antt =====
-- What `load` leaves in the globals when it returns 0.
use factory_thing.Base.{
  ℕ, ◌<◌, ◌≡◌, refl, subst, need, List, [], ◌∷◌, arith, Run, ok, fault, if◌then◌else◌, Option-cases,
  Bool-cases, ◌||◌, inl, inr,
}
use factory_thing.CString.Defs.{Bytes, strlen, lit, matches}
use factory_thing.Json.{JsonLib}
use factory_thing.Config.Defs.{Node, Map, Group, Configuration}
use factory_thing.Config.Group.{show_node}
use factory_thing.Config.Load.{
  Outcome, go, refused, faulted, ◌>>=◌, run, copy, System, Loaded, member, text, load_device,
  load_opcua, load_mqtt, load_amqp, load_tcp, load_server, section, load_map, show_nodes,
  show_group, show_groups, config_path, read_file, load_document, load, config, folder_of,
}
use factory_thing.Config.Nodes.{Given, NodesComplete, show_node-HasStrings}

-- Every text fits the array that it is copied into, with its NUL.
pub record FitsArrays (c : Configuration) : Type 0 where
  pub config_file : strlen c.config_file < 128
  pub config_folder : strlen c.config_folder < 128
  pub device_id : strlen c.device_id < 64
  pub ua_server_address : strlen c.ua_server_address < 128
  pub method : strlen c.method < 32
  pub mqtt_brocker_ip : strlen c.mqtt_brocker_ip < 128
  pub topic_base : strlen c.topic_base < 32
  pub tcp_brocker_ip : strlen c.tcp_brocker_ip < 128
  pub amqp_ip : strlen c.amqp_ip < 128
  pub amqp_topic_base : strlen c.amqp_topic_base < 32

-- What the rest of the bridge reads of a group, but for its topic, format and flags `amqp` and
-- `enable`.
pub record Complete (g : Group) : Type 0 where
  pub name : Given g.name
  pub method : Given g.method
  pub interval_usec : Given g.interval_usec
  pub mqtt : Given g.mqtt
  pub tcp : Given g.tcp
  pub nodes : NodesComplete g.nodes

abbrev pub AllComplete : Map Group → Type 0
AllComplete [] = Unit
AllComplete ((_, g) ∷ m) = Complete g × AllComplete m

FitsArrays-paths :
    (c : Configuration) (file folder : Bytes)
    → FitsArrays c
    → strlen file < 128
    → strlen folder < 128
    → FitsArrays (record c { config_file = file; config_folder = folder })
FitsArrays-paths c file folder f h k = ground arith

pub Outcome-inv {ℓ κ} :
    {V : Type ℓ} {W : Type κ} (first : Outcome V) (part : V → Outcome W) {w : W}
    → (first >>= part) ≡ go w
    → (v : V) × (first ≡ go v) × (part v ≡ go w)
Outcome-inv (go v) part returned = (v, refl, returned)
Outcome-inv refused part returned = cc
Outcome-inv (faulted why) part returned = cc

pub go-injective {ℓ} : {A : Type ℓ} {a b : A} → go a ≡ go b → a ≡ b
go-injective h = cc

pub run-eq-go {ℓ} : {A : Type ℓ} (m : Run A) {a : A} → run m ≡ go a → m ≡ ok a
run-eq-go (ok a) h = cc
run-eq-go (fault e) h = cc

pub copy_fits :
    (size : ℕ) (s : Bytes) {t : Bytes} → copy size s ≡ go t → (t ≡ s) × (strlen t < size)
unfolding copy
copy_fits size s h = ground arith

module _ (J : JsonLib) (os : System) where
  text_fits :
      (size : ℕ) (o : J.Ptr) (key : Bytes) {t : Bytes}
      → text J os size o key ≡ go t
      → strlen t < size
  unfolding text member copy
  text_fits size o key h = ground arith

  load_device-FitsArrays :
      (o : J.Ptr) (c : Configuration) {c' : Configuration}
      → FitsArrays c
      → load_device J os o c ≡ go c'
      → FitsArrays c'
  unfolding load_device
  load_device-FitsArrays o c f h = ground arith

  load_opcua-FitsArrays :
      (o : J.Ptr) (c : Configuration) {c' : Configuration}
      → FitsArrays c
      → load_opcua J os o c ≡ go c'
      → FitsArrays c'
  unfolding load_opcua
  load_opcua-FitsArrays o c f h = ground arith

  load_mqtt-FitsArrays :
      (o : J.Ptr) (c : Configuration) {c' : Configuration}
      → FitsArrays c
      → load_mqtt J os o c ≡ go c'
      → FitsArrays c'
  unfolding load_mqtt
  load_mqtt-FitsArrays o c f h = ground arith

  load_amqp-FitsArrays :
      (o : J.Ptr) (c : Configuration) {c' : Configuration}
      → FitsArrays c
      → load_amqp J os o c ≡ go c'
      → FitsArrays c'
  unfolding load_amqp
  load_amqp-FitsArrays o c f h = ground arith

  load_tcp-FitsArrays :
      (o : J.Ptr) (c : Configuration) {c' : Configuration}
      → FitsArrays c
      → load_tcp J os o c ≡ go c'
      → FitsArrays c'
  unfolding load_tcp
  load_tcp-FitsArrays o c f h = ground arith

  load_server-FitsArrays :
      (o : J.Ptr) (c : Configuration) {c' : Configuration}
      → FitsArrays c
      → load_server J os o c ≡ go c'
      → FitsArrays c'
  unfolding load_server
  load_server-FitsArrays o c f h =
      let (c3, h3, e4) =
        Outcome-inv (load_opcua J os o c >>= load_mqtt J os o >>= load_amqp J os o) _ h in
      let (c2, h2, e3) = Outcome-inv (load_opcua J os o c >>= load_mqtt J os o) _ h3 in
      let (c1, e1, e2) = Outcome-inv (load_opcua J os o c) _ h2 in
      load_tcp-FitsArrays o c3
        (load_amqp-FitsArrays o c2 (load_mqtt-FitsArrays o c1 (load_opcua-FitsArrays o c f e1) e2)
          e3)
        e4

  pub section-keeps {ℓ κ} :
      {A : Type ℓ} (P : A → Type κ) (doc : J.Ptr) (key : Bytes) (part : J.Ptr → A → Outcome A)
      (a : A) {b : A}
      → ((o : J.Ptr) (c : A) → part o a ≡ go c → P c)
      → P a
      → section J os doc key part a ≡ go b
      → P b
  section-keeps P doc key part a {b} keep f h = elim (Option-cases (J.object_get_ex doc key)) [
    | inl e ↦ subst P (go-injective (rw (e, section) at h)) f
    | inr (o, e) ↦ keep o b (rw (e, section) at h)
  ]

  show_nodes-NodesComplete :
      (m : Map Node) {u : Unit {0}} → show_nodes J os m ≡ go u → NodesComplete m
  unfolding show_nodes
  show_nodes-NodesComplete [] h = tt
  show_nodes-NodesComplete ((k, n) ∷ m) h =
      let (v, e, r) = Outcome-inv (run (show_node J n)) (λ _. show_nodes J os m) h in
      (show_node-HasStrings J n (run-eq-go (show_node J n) e), show_nodes-NodesComplete m r)

  show_group-show_nodes :
      (g : Group) {u : Unit {0}} → show_group J os g ≡ go u → show_nodes J os g.nodes ≡ go u
  unfolding show_group
  show_group-show_nodes g h = ground arith

  show_group-Complete : (g : Group) {u : Unit {0}} → show_group J os g ≡ go u → Complete g
  unfolding show_group
  show_group-Complete g h =
      ground (arith, show_nodes-NodesComplete g.nodes (show_group-show_nodes g h))

  show_groups-AllComplete :
      (m : Map Group) {u : Unit {0}} → show_groups J os m ≡ go u → AllComplete m
  unfolding show_groups
  show_groups-AllComplete [] h = tt
  show_groups-AllComplete ((k, g) ∷ m) {u} h =
      let (v, e, r) = Outcome-inv (show_group J os g) (λ _. show_groups J os m) h in
      (show_group-Complete g e, show_groups-AllComplete m r)

  -- The document's part of `load`: the texts still fit, and every group was shown.
  load_document-safe :
      (doc : J.Ptr) (l : Loaded) {l' : Loaded}
      → FitsArrays l.configuration
      → load_document J os doc l ≡ go l'
      → FitsArrays l'.configuration × AllComplete l'.groups
  unfolding load_document
  load_document-safe doc l f h =
      let c = l.configuration in
      let (c1, e1, h1) =
        Outcome-inv (section J os doc (lit "device-configuration") (load_device J os) c) _ h in
      let (c2, e2, h2) =
        Outcome-inv (section J os doc (lit "server-configuration") (load_server J os) c1) _ h1 in
      let (m, e3, h3) =
        Outcome-inv (section J os doc (lit "node-map") (load_map J os) l.groups) _ h2 in
      let (u, e4, h4) = Outcome-inv (show_groups J os m) _ h3 in
      let f1 =
        section-keeps FitsArrays doc _ (load_device J os) c (λ o c'. load_device-FitsArrays o c f) f
          e1 in
      let f2 =
        section-keeps FitsArrays doc _ (load_server J os) c1
          (λ o c'. load_server-FitsArrays o c1 f1) f1 e2 in
      subst (λ x. FitsArrays x.configuration × AllComplete x.groups) (go-injective h4)
        (f2, show_groups-AllComplete m e4)

  config_path_fits :
      (folder fn : Bytes) {path : Bytes}
      → strlen fn < 128
      → config_path J os folder fn ≡ go path
      → strlen path < 128
  unfolding config_path
  config_path_fits folder fn k h = ground arith

  load-safe :
      (l : Loaded) {l' : Loaded}
      → FitsArrays l.configuration
      → load J os l ≡ go l'
      → FitsArrays l'.configuration × AllComplete l'.groups
  unfolding load
  load-safe l f h =
      let fn = l.configuration.config_file in
      let (exe, e1, h1) = Outcome-inv (copy 256 os.exe) _ h in
      let (folder, e2, h2) = Outcome-inv (run (need (folder_of exe))) _ h1 in
      let (kept, e3, h3) = Outcome-inv (copy 128 folder) _ h2 in
      let (path, e4, h4) = Outcome-inv (config_path J os kept fn) _ h3 in
      let (content, e5, h5) = Outcome-inv (read_file J os path) _ h4 in
      load_document-safe (J.parse content) _
        (FitsArrays-paths l.configuration path kept f (config_path_fits kept fn f.config_file e4)
          (copy_fits 128 folder e3).1)
        h5

  pub config-safe :
      (argv : List Bytes) (l : Loaded) {l' : Loaded}
      → FitsArrays l.configuration
      → config J os argv l ≡ go l'
      → FitsArrays l'.configuration × AllComplete l'.groups
  unfolding config
  config-safe (exe ∷ flag ∷ file ∷ []) l f h =
      elim (Bool-cases (matches flag (lit "-c") || matches flag (lit "--config"))) [
        | inl e ↦
            let (name, e1, h1) = Outcome-inv (copy 128 file) _ (rw (e, if◌then◌else◌) at h) in
            load-safe (record l { configuration = record l.configuration { config_file = name } })
              (FitsArrays-paths l.configuration name l.configuration.config_folder f
                (copy_fits 128 file e1).1 f.config_folder)
              h1
        | inr e ↦ absurd (ground arith)
      ]
  config-safe _ l f h = cc
