-- ===== src/Server/Tests.antt =====
-- A server whose library has 25 types, and the theorem at it.
use factory_thing.Base.{
  ℕ, zero, suc, false, ◌≡◌, ◌<◌, ◌⊎◌, inl, inr, arith, [], ◌∷◌, refl, ap, true, All, length, ltb,
  if◌then◌else◌, Bool-cases, Option, none, some, ok, List, map,
}
use factory_thing.CString.Defs.{Bytes, lit, decimal, decimal_fuel}
use factory_thing.Lepton.Read.{Kind, Place, Field, address}
use factory_thing.Lepton.Defs.{read_lepton}
use factory_thing.Lepton.Tests.{device}
use factory_thing.Server.Defs.{server_nodes, type_nodes, depth_nodes, lepton_nodes}
use factory_thing.Server.Sources.{Meets, read_time}
use factory_thing.Server.Calls.{server_calls}
use factory_thing.Server.Certificate.{
  ByteString, null_string, Disk, read_certificate, load_certificate, size_found, whole,
  load_certificate_lem,
}
use factory_thing.Server.Greeting.{memcpy, memcpy_from, hello_world}
use factory_thing.Server.Methods.{Variant, server_methods}
use factory_thing.Server.Answers.{Match, Short, methods_of, Answers, methods_lem}
use factory_thing.Server.Attributes.{TypeIndices, server_variables}
use factory_thing.Server.Sound.{variables_of, Sound}
use factory_thing.Server.Declared.{Declares, variables_lem}
use factory_thing.Server.Orderly.{orderly, added_nodes, orderly_lem}
use factory_thing.Server.Distinct.{distinct, distinct_lem}
use factory_thing.Server.Handlers.{occurs, lepton_ids, handlers_lem}

count_test : length (server_nodes decimal 23 24) ≡ 145
unfolding server_nodes type_nodes depth_nodes lepton_nodes decimal decimal_fuel
count_test = refl

handlers_lem_example :
    Meets (read_time {F = ℕ} 77)
    × All (λ n. Meets (read_lepton device 77 n)) (lepton_ids (server_nodes decimal 23 24))
    × ((k : Kind) (p : Place) (f : Field)
        → occurs (address k p f) (lepton_ids (server_nodes decimal 23 24)) ≡ true)
handlers_lem_example = handlers_lem decimal 23 24 device 77

abbrev certificate : ByteString
certificate = record { length = 3; memory = some (lit "cer") }

orderly_lem_example :
    (orderly (server_calls certificate decimal 23 24) ≡ true)
    × (added_nodes (server_calls certificate decimal 23 24) ≡ server_nodes decimal 23 24)
orderly_lem_example = orderly_lem decimal 23 24 certificate

-- The file can be read, and there is memory for a thousand bytes.
abbrev disk : Disk
disk = record {
  file = some (lit "cer");
  tell_fails = false;
  malloc = λ n. ltb n 1000;
  readable = 5000;
}

certificate_test : load_certificate disk ≡ record { certificate = certificate; open_files = 0 }
unfolding load_certificate read_certificate
certificate_test = refl

load_certificate_lem_example :
    (((load_certificate disk).open_files ≡ 0)
      × (((load_certificate disk).certificate ≡ whole disk (lit "cer"))
          ⊎ (((load_certificate disk).certificate ≡ null_string)
              × ((disk.tell_fails ≡ true) ⊎ (disk.readable < 3)))))
    ⊎ ((disk.malloc (size_found disk (lit "cer")) ≡ false)
        × (load_certificate disk ≡ record {
          certificate = record { length = size_found disk (lit "cer"); memory = none };
          open_files = 1;
        }))
load_certificate_lem_example = load_certificate_lem disk (lit "cer") refl (ground arith)

abbrev zeros : ℕ → Bytes
zeros zero = []
zeros (suc n) = 0 ∷ zeros n

length-zeros : (n : ℕ) → length (zeros n) ≡ n
length-zeros zero = refl
length-zeros (suc n) = ap suc (length-zeros n)

abbrev memory_for : ℕ → Option Bytes
memory_for n = if ltb n 1000 then some (zeros n) else none

memory_for-gives :
    (n : ℕ) → (memory_for n ≡ none) ⊎ ((mem : Bytes) × (memory_for n ≡ some mem) × (length mem ≡ n))
memory_for-gives n = elim (Bool-cases (ltb n 1000)) [
  | inl e ↦ inr (zeros n, rw e refl, length-zeros n)
  | inr e ↦ inl (rw e refl)
]

hello_world_test : hello_world memory_for (lit "Bob") ≡ ok (lit "Hello Bob")
unfolding hello_world memcpy memcpy_from
hello_world_test = refl

distinct_lem_example : distinct [] (server_nodes decimal 23 24) ≡ true
distinct_lem_example = distinct_lem decimal 23 24 (ground arith)

methods_lem_example :
    (methods_of (server_nodes decimal 23 24) ≡ map (λ m. m.node) server_methods)
    × All
        (λ m.
          (inputs : List Variant)
          → Match m.input_arguments inputs
          → All Short inputs
          → Answers memory_for memory_for-gives m inputs)
        server_methods
methods_lem_example = methods_lem memory_for memory_for-gives decimal 23 24

abbrev indices : TypeIndices
indices = record {
  boolean_type = 0;
  byte_type = 2;
  int32_type = 5;
  float_type = 9;
  date_time_type = 12;
  variant_type = 23;
  diagnosticinfo_type = 24;
}

variables_lem_example :
    (variables_of (server_nodes decimal 23 24)
      ≡ map (λ v. v.node) (server_variables indices decimal))
    × All (λ v. Sound v.attributes) (server_variables indices decimal)
    × ((k : Kind) (p : Place) (f : Field) → Declares indices device decimal k p f)
variables_lem_example = variables_lem indices device decimal
