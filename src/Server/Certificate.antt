-- ===== src/Server/Certificate.antt =====
-- `loadCertificate` of open62541_mqtt/mqtt/server.c.
use factory_thing.Base.{
  ℕ, zero, suc, ◌-◌, ◌^◌, ◌<◌, ◌≤◌, ap, ◌≡◌, ◌⊎◌, inl, inr, refl, min, Bool, true, false,
  Bool-cases, Option, none, some, [], ◌∷◌, length, ltb, if◌then◌else◌, arith,
}
use factory_thing.CString.Defs.{Bytes}
use factory_thing.Int.{ℤ, pos, negsuc, minus_one}

-- UA_ByteString: its length, and its field data, which may be NULL.
pub record ByteString : Type 0 where
  pub length : ℕ
  pub memory : Option Bytes

-- UA_STRING_NULL, which UA_ByteString_deleteMembers leaves too.
abbrev pub null_string : ByteString
null_string = record { length = 0; memory = none }

-- "server_cert.der", if fopen opens it, and what may go wrong with it: ftell may return -1, malloc
-- may give no memory for so many bytes, and a read error may come behind so many bytes.
pub record Disk : Type 0 where
  pub file : Option Bytes
  pub tell_fails : Bool
  pub malloc : ℕ → Bool
  pub readable : ℕ

-- FILE
pub record Stream : Type 0 where
  pub contents : Bytes
  pub position : ℕ

-- The certificate, and how many files are open.
pub record Certified : Type 0 where
  pub certificate : ByteString
  pub open_files : ℕ

-- (size_t)
abbrev pub size_t : ℤ → ℕ
size_t (pos n) = n
size_t (negsuc n) = 2 ^ 64 - suc n

-- The first bytes, so many at most, and what is behind so many.
abbrev pub first : ℕ → Bytes → Bytes
first zero s = []
first (suc n) [] = []
first (suc n) (c ∷ s) = c ∷ first n s

abbrev pub behind : ℕ → Bytes → Bytes
behind zero s = s
behind (suc n) [] = []
behind (suc n) (c ∷ s) = behind n s

module _ (d : Disk) where
  abbrev pub ftell : Stream → ℤ
  ftell fp = if d.tell_fails then minus_one else pos fp.position

  -- fread of so many bytes: those that are read.
  abbrev pub fread : ℕ → Stream → Bytes
  fread n fp = first (min n d.readable) (behind fp.position fp.contents)

  -- What follows fseek(fp, 0, SEEK_END) and the size.
  unfoldable pub read_certificate : ℕ → Stream → Certified
  read_certificate size fp =
      if d.malloc size
      then (let read = fread size (record fp { position = 0 }) in
          record {
            certificate =
                if ltb (length read) size
                then null_string
                else record { length = size; memory = some read };
            open_files = 0;
          })
      else record { certificate = record { length = size; memory = none }; open_files = 1 }

  unfoldable pub load_certificate : Certified
  unfolding read_certificate
  load_certificate = elim d.file [
    | none ↦ record { certificate = null_string; open_files = 0 }
    | some contents ↦
        let fp : Stream = record { contents = contents; position = length contents } in
        read_certificate (size_t (ftell fp)) fp
  ]

first_length : (n : ℕ) (s : Bytes) → length (first n s) ≡ min n (length s)
first_length zero s = ground arith
first_length (suc n) [] = ground arith
first_length (suc n) (c ∷ s) = grind (arith, first_length n s)

first_all : (n : ℕ) (s : Bytes) → length s ≤ n → first n s ≡ s
first_all zero [] h = refl
first_all zero (c ∷ s) h = absurd (omega arith)
first_all (suc n) [] h = refl
first_all (suc n) (c ∷ s) h = ap (◌∷◌ c) (first_all n s (omega arith))

-- What fread reads from the start of the file.
abbrev from_start : Disk → ℕ → Bytes → Bytes
from_start d size contents = fread d size (record { contents = contents; position = 0 })

at_end :
    (d : Disk) (size : ℕ) (contents : Bytes)
    → length (from_start d size contents) ≡ min (min size d.readable) (length contents)
at_end d size contents = first_length (min size d.readable) contents

module _ (d : Disk) (contents : Bytes) where
  -- How many bytes `main` takes the file to have.
  abbrev pub size_found : ℕ
  size_found = size_t (ftell d (record { contents = contents; position = length contents }))

  abbrev pub whole : ByteString
  whole = record { length = length contents; memory = some contents }

  -- A file of fewer than 2 ^ 63 bytes that is opened is closed again, if there is memory for it: then
  -- the certificate is the whole file; or it is null, and ftell has failed, or a read error has come
  -- before the end of the file. If there is no memory, the file stays open, and the certificate has a
  -- length, of the file or of 2 ^ 64 - 1 bytes, and no data.
  pub load_certificate_lem :
      d.file ≡ some contents
      → length contents < 2 ^ 63
      → (((load_certificate d).open_files ≡ 0)
          × (((load_certificate d).certificate ≡ whole)
              ⊎ (((load_certificate d).certificate ≡ null_string)
                  × ((d.tell_fails ≡ true) ⊎ (d.readable < length contents)))))
        ⊎ ((d.malloc size_found ≡ false)
            × (load_certificate d ≡ record {
              certificate = record { length = size_found; memory = none };
              open_files = 1;
            }))
  unfolding load_certificate read_certificate
  load_certificate_lem opened small = elim (Bool-cases d.tell_fails) [
    | inl fails ↦ ground (arith, at_end d (2 ^ 64 - 1) contents)
    | inr told ↦ elim (Bool-cases (ltb d.readable (length contents))) [
      | inl short ↦ ground (arith, at_end d (length contents) contents)
      | inr full ↦
          let same : from_start d (length contents) contents ≡ contents =
            first_all (min (length contents) d.readable) contents (ground arith) in
          ground (arith, same)
    ]
  ]
