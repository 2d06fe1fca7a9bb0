-- ===== src/Uring/OpenOptions/Opening.antt =====
-- `OpenOptions::open` of norn-uring/src/fs/opts.rs and `File::open_with_options` of fs/file.rs: from the
-- options to the request for the kernel, with the constants of libc as numbers.
use Prim.Native.Nat.{bit_or}
use faser.Prelude.{
  ℕ, ◌≡◌, refl, Bool, true, false, ◌||◌, ◌⊎◌, inl, inr, Option, none, some, List, [], ◌∷◌,
}
use faser.Uring.OpenOptions.{
  Constant, OpenOptions, new, Mode, ok, einval, get_access_mode, get_creation_mode,
}
use faser.Uring.OpenOptions.Modes.{Access, access_lem, Creation, creation_lem, invalid}
use faser.Uring.Fs.{Request, opening}

-- The setters.
unfoldable pub read : Bool → OpenOptions → OpenOptions
read b o = record o { read = b }

unfoldable pub write : Bool → OpenOptions → OpenOptions
write b o = record o { write = b }

unfoldable pub append : Bool → OpenOptions → OpenOptions
append b o = record o { append = b }

unfoldable pub truncate : Bool → OpenOptions → OpenOptions
truncate b o = record o { truncate = b }

unfoldable pub create : Bool → OpenOptions → OpenOptions
create b o = record o { create = b }

unfoldable pub create_new : Bool → OpenOptions → OpenOptions
create_new b o = record o { create_new = b }

unfoldable pub direct : Bool → OpenOptions → OpenOptions
direct b o = record o { direct = b }

unfoldable pub sync : Bool → OpenOptions → OpenOptions
sync b o = record o { sync = b }

unfoldable pub dsync : Bool → OpenOptions → OpenOptions
dsync b o = record o { dsync = b }

-- The union of constants; their numbers are those of the crate libc.
unfoldable pub bits : (Constant → ℕ) → List Constant → ℕ
bits libc [] = 0
bits libc (c ∷ cs) = bit_or (libc c) (bits libc cs)

abbrev requested : (Constant → ℕ) → Mode → Mode → Option ℕ → Option Request
requested libc (ok cs) (ok ds) (some path) = some (opening path (bits libc cs) (bits libc ds))
requested libc cs ds path = none

-- `File::open_with_options`, up to its submission; `none` is an error without one. A path that has no
-- C string is `none`.
unfoldable pub open_with_options : (Constant → ℕ) → Option ℕ → OpenOptions → Option Request
open_with_options libc path o = requested libc (get_access_mode o) (get_creation_mode o) path

-- `File::open`.
unfoldable pub open_read : (Constant → ℕ) → Option ℕ → Option Request
open_read libc path = open_with_options libc path (read true new)

-- What is asked of the kernel.
abbrev pub Opens : (Constant → ℕ) → OpenOptions → Option ℕ → Option Request → Type 0
Opens libc o path none =
    ((o.read || o.write || o.append) ≡ false) ⊎ ((invalid o ≡ true) ⊎ (path ≡ none))
Opens libc o path (some r) =
    (p : ℕ) × (cs : List Constant) × (ds : List Constant) × (path ≡ some p)
    × (r ≡ opening p (bits libc cs) (bits libc ds))
    × Access o (ok cs)
    × Creation o (ok ds)

requested-Opens :
    (libc : Constant → ℕ) (o : OpenOptions) (cs ds : Mode) (path : Option ℕ)
    → Access o cs
    → Creation o ds
    → Opens libc o path (requested libc cs ds path)
requested-Opens libc o (ok cs) (ok ds) (some p) a c = (p, cs, ds, refl, refl, a, c)
requested-Opens libc o (ok cs) (ok ds) none a c = inr (inr refl)
requested-Opens libc o (ok cs) einval path a c = inr (inl c)
requested-Opens libc o einval ds path a c = inl a

-- With any numbers for the constants of libc, `OpenOptions::open` requests nothing from the kernel
-- only if neither read, write nor append is set, if the options are one of the combinations that
-- `invalid` describes, or if the path has no C string. What it requests is the path with the union
-- of access flags that allow reading, writing and appending and have the direct, sync and dsync
-- flags exactly as the options say, and the union of creation flags that `Creation` describes.
pub open-Opens :
    (libc : Constant → ℕ) (path : Option ℕ) (o : OpenOptions)
    → Opens libc o path (open_with_options libc path o)
unfolding open_with_options
open-Opens libc path o =
    requested-Opens libc o (get_access_mode o) (get_creation_mode o) path (access_lem o)
      (creation_lem o)
