-- ===== src/Acme/Cache.antt =====
-- `Cache` of src/acme.rs: the files under `cache_dir`. The file system is given.
use archetype_proxy_server.Prelude.{Bool, Option, some, ◌++◌, Result, ensure, and_then}
use archetype_proxy_server.Text.{Str, codes}
use archetype_proxy_server.Steps.{Step, ◌>>◌}
use archetype_proxy_server.Acme.{AcmeError, cache, cert_file, key_file}
use archetype_proxy_server.Acme.Cert.{IssuedCert}

-- The file system, over its states. A write that fails may leave anything behind.
pub record Files (D : Type 0) : Type 0 where
  pub read_to_string : D → Str → Option Str
  pub create_dir_all : D → Str → D × Bool
  pub write : D → Str → Str → D × Bool

-- `PathBuf::join` for a plain file name
abbrev pub in_dir : Str → Str → Str
in_dir dir name = dir ++ codes "/" ++ name

module _ {D : Type 0} (fs : Files D) where
  abbrev io : (path : Str) → D × Bool → D × Result AcmeError (Unit {0})
  io path (d, success) = (d, ensure success (cache path))

  unfoldable pub ensure_dir : (dir : Str) → Step D AcmeError (Unit {0})
  ensure_dir dir d = io dir (fs.create_dir_all d dir)

  unfoldable pub read : (dir name : Str) → D → Option Str
  read dir name d = fs.read_to_string d (in_dir dir name)

  unfoldable pub write : (dir name contents : Str) → Step D AcmeError (Unit {0})
  write dir name contents d = io (in_dir dir name) (fs.write d (in_dir dir name) contents)

  unfoldable pub load_cert : (dir : Str) → D → Option IssuedCert
  unfolding read
  load_cert dir d = and_then (read dir cert_file d) (λ cert_pem.
      and_then (read dir key_file d)
        (λ key_pem. some (record { cert_pem = cert_pem; key_pem = key_pem })))

  unfoldable pub store_cert : (dir : Str) → IssuedCert → Step D AcmeError (Unit {0})
  unfolding write
  store_cert dir c = write dir cert_file c.cert_pem >> write dir key_file c.key_pem
