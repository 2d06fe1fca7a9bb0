-- ===== src/Uring/OpenOptions.antt =====
-- norn-uring/src/fs/opts.rs: the options that a file is opened with, and the flags of `openat` that
-- they come to. A mode is the list of the libc constants that the code joins by `|`; `O_RDONLY`,
-- which is zero, stands for itself.
pub mod Modes
pub mod Opening
use faser.Prelude.{Bool, true, false, not, ◌&&◌, ◌||◌, if◌then◌else◌, List, [], ◌∷◌, ◌++◌}

pub data Constant : Type 0 where
  o_rdonly o_wronly o_rdwr o_append o_direct o_sync o_dsync o_creat o_trunc o_excl : Constant

pub record OpenOptions : Type 0 where
  pub read : Bool
  pub write : Bool
  pub append : Bool
  pub truncate : Bool
  pub create : Bool
  pub create_new : Bool
  pub direct : Bool
  pub sync : Bool
  pub dsync : Bool

-- `OpenOptions::new`: nothing is set.
unfoldable pub new : OpenOptions
new = record {
  read = false;
  write = false;
  append = false;
  truncate = false;
  create = false;
  create_new = false;
  direct = false;
  sync = false;
  dsync = false;
}

-- A mode, or the error `EINVAL`.
pub data Mode : Type 0 where
  ok : List Constant → Mode
  einval : Mode

abbrev pub joined : Mode → List Constant → Mode
joined (ok cs) ds = ok (cs ++ ds)
joined einval ds = einval

abbrev when : Bool → Constant → List Constant
when true c = c ∷ []
when false c = []

unfoldable pub base_mode : Bool → Bool → Bool → Mode
base_mode true false false = ok (o_rdonly ∷ [])
base_mode false true false = ok (o_wronly ∷ [])
base_mode true true false = ok (o_rdwr ∷ [])
base_mode false w true = ok (o_wronly ∷ o_append ∷ [])
base_mode true w true = ok (o_rdwr ∷ o_append ∷ [])
base_mode false false false = einval

unfoldable pub get_access_mode : OpenOptions → Mode
get_access_mode o =
    joined (base_mode (o.read) (o.write) (o.append))
      (when (o.direct) o_direct ++ (when (o.sync) o_sync ++ when (o.dsync) o_dsync))

unfoldable pub creation_flags : Bool → Bool → Bool → List Constant
creation_flags false false false = []
creation_flags true false false = o_creat ∷ []
creation_flags false true false = o_trunc ∷ []
creation_flags true true false = o_creat ∷ o_trunc ∷ []
creation_flags c t true = o_creat ∷ o_excl ∷ []

-- What the first `match` refuses.
unfoldable pub refuses : Bool → Bool → OpenOptions → Bool
refuses true false o = false
refuses false false o = o.truncate || o.create || o.create_new
refuses w true o = o.truncate && not o.create_new

unfoldable pub get_creation_mode : OpenOptions → Mode
get_creation_mode o =
    if refuses o.write o.append o
    then einval
    else ok (creation_flags o.create o.truncate o.create_new)
