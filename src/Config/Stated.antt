-- ===== src/Config/Stated.antt =====
-- A document that states everything, with a node whose alias is empty.
use factory_thing.Base.{true, false, []}
use factory_thing.Int.{pos}
use factory_thing.CString.Defs.{lit}
use factory_thing.Json.{JsonLib}
use factory_thing.Config.Sample.{
  Doc, bool, num, str, obj, arr, end, field, nil, cons, json_of, server_doc,
}

abbrev pub stated_node : Doc
stated_node = obj (
    field (lit "id") (str (lit "ns=2;i=5"))
      (field (lit "topic") (str (lit "temp")) (field (lit "alias") (str []) end)))

abbrev pub stated_group : Doc
stated_group = obj (
    field (lit "name") (str (lit "g")) (
      field (lit "enable") (bool true) (
        field (lit "method") (str (lit "poll")) (
          field (lit "intervalUSec") (num (pos 1000)) (
            field (lit "nodes") (arr (cons stated_node nil)) (
              field (lit "topic") (str (lit "p")) (
                field (lit "format") (str (lit "kv"))
                  (field (lit "mqtt") (bool true) (field (lit "tcp") (bool false) end)))))))))

abbrev pub stated_document : Doc
stated_document = obj (
    field (lit "device-configuration")
      (obj (field (lit "Device") (obj (field (lit "deviceID") (str (lit "sensor0")) end)) end))
      (field (lit "server-configuration") server_doc
        (field (lit "node-map") (arr (cons stated_group nil)) end)))

abbrev pub stated_J : JsonLib
stated_J = json_of stated_document
