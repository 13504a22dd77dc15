-- ===== src/Config/Load.antt =====
-- `load` and `config`: reading the configuration file into the globals.
use factory_thing.Base.{
  ℕ, zero, suc, ◌+◌, ◌||◌, Option, none, some, List, [], ◌∷◌, ◌++◌, if◌then◌else◌, ◌==◌, ltb, Run,
  ok, fault, Fault, overflow, need,
}
use factory_thing.CString.Defs.{Bytes, lit, matches, strlen, strncmp_is_zero}
use factory_thing.Json.{object_type, JsonLib}
use factory_thing.Config.Defs.{Node, Group, unset_group, Map, insert, Configuration}
use factory_thing.Config.Group.{make_group, show_node}

-- What a part of `load` does: it goes on, `load` returns -1, or the program faults.
pub data Outcome {ℓ} (A : Type ℓ) : Type ℓ where
  go : A → Outcome A
  refused : Outcome A
  faulted : Fault → Outcome A

-- A part that goes on hands its value to the part after it.
infixl 5 ◌>>=◌
abbrev pub ◌>>=◌ {ℓ κ} : {V : Type ℓ} {W : Type κ} → Outcome V → (V → Outcome W) → Outcome W
go v >>= part = part v
refused >>= part = refused
faulted why >>= part = faulted why

infixl 5 ◌>>◌
abbrev pub ◌>>◌ {ℓ} : {W : Type ℓ} → Outcome (Unit {0}) → Outcome W → Outcome W
first >> second = first >>= λ _. second

abbrev pub run {ℓ} : {A : Type ℓ} → Run A → Outcome A
run (ok a) = go a
run (fault e) = faulted e

-- strcpy or sprintf "%s" into an array of `size` bytes, the NUL included.
unfoldable pub copy : ℕ → Bytes → Outcome Bytes
copy size s = if ltb (strlen s) size then go s else faulted overflow

-- The bytes before the first NUL.
unfoldable pub c_string : Bytes → Bytes
c_string [] = []
c_string (c ∷ s) = if c == 0 then [] else c ∷ c_string s

-- Up to the last '/', which is left out: exe, strlen(exe) - strlen(strrchr(exe, '/')) bytes.
unfoldable pub folder_of : Bytes → Option Bytes
folder_of [] = none
folder_of (c ∷ s) = elim (folder_of s) [
  | some f ↦ some (c ∷ f)
  | none ↦ if c == b'/' then some [] else none
]

-- The size of `data`, of which all may be read.
abbrev pub chunk : ℕ
chunk = 1048576

-- The operating system, as `load` sees it: the target of /proc/self/exe, empty if it is not read,
-- and the contents of the files that open.
pub record System : Type 0 where
  pub exe : Bytes
  pub fopen : Bytes → Option Bytes

pub record Loaded : Type 0 where
  pub configuration : Configuration
  pub groups : Map Group

module _ (J : JsonLib) (os : System) where
  open J use {
    Ptr, null, parse, get_type, array_length, array_get_idx, get_string, get_int, get_boolean,
    object_get_ex,
  }

  -- if(!json_object_object_get_ex(o, key, &v)) return -1;
  unfoldable pub member : Ptr → Bytes → Outcome Ptr
  member o key = elim (object_get_ex o key) [ none ↦ refused | some v ↦ go v ]

  -- The member's text, by strcpy into an array of `size` bytes.
  unfoldable pub text : ℕ → Ptr → Bytes → Outcome Bytes
  unfolding copy member
  text size o key = do v ← member o key; s ← run (need (get_string v)); copy size s

  unfoldable pub load_device : Ptr → Configuration → Outcome Configuration
  unfolding member text
  load_device o c = do
    d ← member o (lit "Device")
    s ← text 64 d (lit "deviceID")
    go (record c { device_id = s })

  unfoldable pub load_opcua : Ptr → Configuration → Outcome Configuration
  unfolding member text
  load_opcua o c = do
    p ← member o (lit "opcuaServer")
    url ← text 128 p (lit "EndpointURL")
    interval ← member p (lit "publishIntervalUs")
    asyc ← member p (lit "asycRequestSupported")
    m ← text 32 p (lit "method")
    go (record c {
      ua_server_address = url;
      ua_publish_interval_usecs = get_int interval;
      asyc_request_supported = get_boolean asyc;
      method = m;
    })

  unfoldable pub load_mqtt : Ptr → Configuration → Outcome Configuration
  unfolding member text
  load_mqtt o c = do
    p ← member o (lit "mqttBrocker")
    enable ← member p (lit "enable")
    ip ← text 128 p (lit "ip")
    port ← member p (lit "port")
    base ← text 32 p (lit "topicBase")
    go (record c {
      mqtt_enable = get_boolean enable;
      mqtt_brocker_ip = ip;
      mqtt_brocker_port = get_int port;
      topic_base = base;
    })

  unfoldable pub load_amqp : Ptr → Configuration → Outcome Configuration
  unfolding member text
  load_amqp o c = do
    p ← member o (lit "amqpRabbit")
    enable ← member p (lit "enable")
    ip ← text 128 p (lit "ip")
    port ← member p (lit "port")
    base ← text 32 p (lit "topicBase")
    go (record c {
      amqp_enable = get_boolean enable;
      amqp_ip = ip;
      amqp_port = get_int port;
      amqp_topic_base = base;
    })

  unfoldable pub load_tcp : Ptr → Configuration → Outcome Configuration
  unfolding member text
  load_tcp o c = do
    p ← member o (lit "tcpSever")
    ip ← text 128 p (lit "ip")
    port ← member p (lit "port")
    sample ← member p (lit "sampleIntervalUs")
    shot ← member p (lit "singleshot")
    enable ← member p (lit "enable")
    go (record c {
      tcp_brocker_ip = ip;
      tcp_brocker_port = get_int port;
      tcp_sample_interval_us = get_int sample;
      singleshot = get_boolean shot;
      tcp_enable = get_boolean enable;
    })

  unfoldable pub load_server : Ptr → Configuration → Outcome Configuration
  load_server o c = load_opcua o c >>= load_mqtt o >>= load_amqp o >>= load_tcp o

  -- `part` runs if the document has the member.
  abbrev pub section {ℓ} : {A : Type ℓ} → Ptr → Bytes → (Ptr → A → Outcome A) → A → Outcome A
  section doc key part a = elim (object_get_ex doc key) [ none ↦ go a | some o ↦ part o a ]

  -- The status of `make_group` is not looked at.
  unfoldable pub load_group : ℕ → Ptr → Map Group → Outcome (Map Group)
  load_group i n m = elim (get_type n) [
    | object_type ↦ do made ← run (make_group J n unset_group); go (insert i made.1 m)
    | _ ↦ go m
  ]

  -- The loop over "node-map" from `i` on, with `rounds` left.
  unfoldable pub load_groups : Ptr → ℕ → ℕ → Map Group → Outcome (Map Group)
  load_groups o zero i m = go m
  load_groups o (suc rounds) i m =
      load_group i (array_get_idx o i) m >>= load_groups o rounds (i + 1)

  unfoldable pub load_map : Ptr → Map Group → Outcome (Map Group)
  load_map o m = load_groups o (array_length o) 0 m

  -- The lines printed of each node and group read their fields.
  unfoldable pub show_nodes : Map Node → Outcome (Unit {0})
  show_nodes [] = go tt
  show_nodes ((_, n) ∷ rest) = run (show_node J n) >> show_nodes rest

  unfoldable pub show_group : Group → Outcome (Unit {0})
  show_group g = do
    a ← run (need g.name)
    b ← run (need g.method)
    i ← run (need g.interval_usec)
    m ← run (need g.mqtt)
    t ← run (need g.tcp)
    show_nodes g.nodes

  unfoldable pub show_groups : Map Group → Outcome (Unit {0})
  show_groups [] = go tt
  show_groups ((_, g) ∷ rest) = show_group g >> show_groups rest

  -- The path of the file: `fn` itself if it is absolute, or relative to the program's folder.
  -- `fn` is the array `configFile`, of 128 bytes, that is also written.
  unfoldable pub config_path : Bytes → Bytes → Outcome Bytes
  unfolding copy
  config_path folder fn =
      if strncmp_is_zero fn (lit "/") 1
      then copy 256 fn
      else (do path ← copy 256 (folder ++ (b'/' ∷ fn)); copy 128 path)

  -- The first megabyte of the file; it is handed on as a string, so it must hold a NUL.
  unfoldable pub read_file : Bytes → Outcome Bytes
  unfolding copy
  read_file path = elim (os.fopen path) [
    | none ↦ refused
    | some content ↦ copy chunk (c_string content)
  ]

  -- From the parsed document to the globals.
  unfoldable pub load_document : Ptr → Loaded → Outcome Loaded
  load_document doc l = do
    c ← section doc (lit "device-configuration") load_device l.configuration
    c' ← section doc (lit "server-configuration") load_server c
    m ← section doc (lit "node-map") load_map l.groups
    show_groups m
    go (record { configuration = c'; groups = m })

  -- load(fn), where `fn` is the array `configFile`.
  unfoldable pub load : Loaded → Outcome Loaded
  load l = do
    let fn = l.configuration.config_file
    exe ← copy 256 os.exe
    folder ← run (need (folder_of exe))
    kept ← copy 128 folder
    path ← config_path kept fn
    content ← read_file path
    load_document (parse content) (record l {
      configuration = record l.configuration { config_folder = kept; config_file = path };
    })

  -- config(argc, argv); `refused` is the status -1.
  unfoldable pub config : List Bytes → Loaded → Outcome Loaded
  config (exe ∷ flag ∷ file ∷ []) l =
      if matches flag (lit "-c") || matches flag (lit "--config")
      then (do
        name ← copy 128 file
        load (record l { configuration = record l.configuration { config_file = name } }))
      else refused
  config argv l = refused
