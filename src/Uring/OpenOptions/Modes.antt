-- ===== src/Uring/OpenOptions/Modes.antt =====
-- Which flags the options of norn-uring/src/fs/opts.rs come to, each by itself.
use faser.Prelude.{◌≡◌, Bool, true, false, not, ◌&&◌, ◌||◌, if◌then◌else◌, List, [], ◌∷◌, arith}
use faser.Uring.OpenOptions.{
  Constant, o_rdonly, o_wronly, o_rdwr, o_append, o_direct, o_sync, o_dsync, o_creat, o_trunc,
  o_excl, OpenOptions, Mode, ok, einval, get_access_mode, base_mode, get_creation_mode,
  creation_flags, refuses,
}

abbrev pub has_direct : List Constant → Bool
has_direct [] = false
has_direct (o_direct ∷ cs) = true
has_direct (c ∷ cs) = has_direct cs

abbrev pub has_sync : List Constant → Bool
has_sync [] = false
has_sync (o_sync ∷ cs) = true
has_sync (c ∷ cs) = has_sync cs

abbrev pub has_dsync : List Constant → Bool
has_dsync [] = false
has_dsync (o_dsync ∷ cs) = true
has_dsync (c ∷ cs) = has_dsync cs

abbrev pub has_append : List Constant → Bool
has_append [] = false
has_append (o_append ∷ cs) = true
has_append (c ∷ cs) = has_append cs

abbrev pub has_creat : List Constant → Bool
has_creat [] = false
has_creat (o_creat ∷ cs) = true
has_creat (c ∷ cs) = has_creat cs

abbrev pub has_trunc : List Constant → Bool
has_trunc [] = false
has_trunc (o_trunc ∷ cs) = true
has_trunc (c ∷ cs) = has_trunc cs

abbrev pub has_excl : List Constant → Bool
has_excl [] = false
has_excl (o_excl ∷ cs) = true
has_excl (c ∷ cs) = has_excl cs

-- The file can be read, or written, in this mode.
abbrev pub reads : List Constant → Bool
reads [] = false
reads (o_rdonly ∷ cs) = true
reads (o_rdwr ∷ cs) = true
reads (c ∷ cs) = reads cs

abbrev pub writes : List Constant → Bool
writes [] = false
writes (o_wronly ∷ cs) = true
writes (o_rdwr ∷ cs) = true
writes (c ∷ cs) = writes cs

abbrev pub Access : OpenOptions → Mode → Type 0
Access o (ok cs) =
    (reads cs ≡ o.read)
    × (writes cs ≡ (o.write || o.append))
    × (has_append cs ≡ o.append)
    × (has_direct cs ≡ o.direct)
    × (has_sync cs ≡ o.sync)
    × (has_dsync cs ≡ o.dsync)
Access o einval = (o.read || o.write || o.append) ≡ false

-- The access mode is refused exactly if neither read, write nor append is set; otherwise it allows
-- reading if `read` is set and writing if `write` or `append` is, and has each of the append,
-- direct, sync and dsync flags exactly if its option is set.
pub access_lem : (o : OpenOptions) → Access o (get_access_mode o)
unfolding get_access_mode base_mode
access_lem o = ground arith

-- Truncating or creating without write access, or truncating what is appended to, is refused, but
-- `create_new` makes the file empty and overrides the other two.
abbrev pub invalid : OpenOptions → Bool
invalid o =
    if o.append
    then o.truncate && not o.create_new
    else not o.write && (o.truncate || o.create || o.create_new)

abbrev pub Creation : OpenOptions → Mode → Type 0
Creation o (ok cs) =
    (invalid o ≡ false)
    × (has_creat cs ≡ (o.create || o.create_new))
    × (has_excl cs ≡ o.create_new)
    × (has_trunc cs ≡ (o.truncate && not o.create_new))
Creation o einval = invalid o ≡ true

-- The creation mode is refused exactly for the combinations that `invalid` describes (creating or
-- truncating without write access, truncating in append mode unless `create_new` is set);
-- otherwise the file is created if `create` or `create_new` is set, exclusively if `create_new`
-- is, and truncated if `truncate` is set without `create_new`.
pub creation_lem : (o : OpenOptions) → Creation o (get_creation_mode o)
unfolding get_creation_mode creation_flags refuses
creation_lem o = ground arith
