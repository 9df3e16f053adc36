-- ===== src/Extract.antt =====
-- `untarFiltered` and what it calls (cmd/kbuild-step/main.go, untarpool.go): the entries of a tar stream
-- and what each comes to. The reader and the pool of writers stand in Pool.
pub mod Disk
pub mod Names
pub mod Pool
use kernelbuild_buildkit.Common.{
  ℕ, ◌*◌, ◌^◌, ltb, Bool, true, false, List, [], ◌∷◌, if◌then◌else◌, Option, none, some, Bytes,
  is_empty,
}
use kernelbuild_buildkit.Extract.Disk.{
  Root, CallError, bad_stream, Call, carry, ◌>>◌, unless_missing,
}
use kernelbuild_buildkit.Extract.Names.{dir_of, strip_components}

-- `untarInlineLimit`
abbrev pub untar_inline_limit : ℕ
untar_inline_limit = 8 * 2 ^ 20

-- The type flags of the tar format that the loop has a case for, and all others.
pub data Typeflag : Type 0 where
  type_dir type_reg type_symlink type_link type_other : Typeflag

-- A header with what the stream has of the entry's body; `whole` says that this is all of it.
pub record Header : Type 0 where
  pub name : Bytes
  pub typeflag : Typeflag
  pub linkname : Bytes
  pub size : ℕ
  pub perm : ℕ
  pub mod_time : ℕ
  pub body : Bytes
  pub whole : Bool

-- What `tr.Next` gives: a header, the end, or an error.
pub data Stream : Type 0 where
  eof : Stream
  broken : Stream
  entry : Header → Stream → Stream

-- `writeJob`
pub record WriteJob : Type 0 where
  pub name : Bytes
  pub mode : ℕ
  pub mtime : ℕ
  pub body : Bytes

-- What is done behind a flush of the pool.
pub data Ordered : Type 0 where
  large_file : WriteJob → Bool → Ordered
  make_symlink : Bytes → Bytes → Ordered
  make_link : Bytes → Bytes → Ordered

-- What one round of the loop comes to. A queued file whose body cannot be read ends the loop.
pub data Action : Type 0 where
  skip : Action
  make_dir : Bytes → ℕ → Action
  queue_file : WriteJob → Bool → Action
  ordered : Ordered → Action
  fail_read : Action

abbrev pub job_of : Bytes → Header → WriteJob
job_of name h = record { name = name; mode = h.perm; mtime = h.mod_time; body = h.body }

abbrev link_action : Bytes → Option Bytes → Action
link_action name none = skip
link_action name (some target) = ordered (make_link target name)

-- The switch on the type flag.
unfoldable pub dispatch_type : ℕ → Bytes → Header → Typeflag → Action
unfolding strip_components
dispatch_type strip name h type_dir = make_dir name h.perm
dispatch_type strip name h type_reg =
    if ltb untar_inline_limit h.size
    then ordered (large_file (job_of name h) h.whole)
    else queue_file (job_of name h) h.whole
dispatch_type strip name h type_symlink = ordered (make_symlink h.linkname name)
dispatch_type strip name h type_link = link_action name (strip_components h.linkname strip)
dispatch_type strip name h type_other = skip

-- `rename`, where there is one; a name that it empties is left out.
abbrev pub renamed : Option (Bytes → Bytes) → ℕ → Header → Bytes → Action
renamed none strip h name = dispatch_type strip name h h.typeflag
renamed (some rename) strip h name =
    if is_empty (rename name) then skip else dispatch_type strip (rename name) h h.typeflag

abbrev stripped : Option (Bytes → Bytes) → ℕ → Header → Option Bytes → Action
stripped rename strip h none = skip
stripped rename strip h (some name) = renamed rename strip h name

unfoldable pub action_of : Option (Bytes → Bytes) → ℕ → Header → Action
unfolding strip_components dispatch_type
action_of rename strip h = stripped rename strip h (strip_components h.name strip)

-- The rounds of the loop over a stream; the end of the list is the end of the stream.
unfoldable pub actions_of : Option (Bytes → Bytes) → ℕ → Stream → List Action
unfolding action_of
actions_of rename strip eof = []
actions_of rename strip broken = fail_read ∷ []
actions_of rename strip (entry h s) = action_of rename strip h ∷ actions_of rename strip s

module _ (d : Root) where
  open d use {State, mkdir_all, remove, create, write, close, chmod, chtimes, symlink, link}

  abbrev pub fail_with : CallError → Call State
  fail_with e s = (s, some e)

  -- MkdirAll of the directory, and Remove of what has the name.
  unfoldable pub make_room : Bytes → Call State
  unfolding dir_of
  make_room name = mkdir_all (dir_of name) >> λ s. unless_missing (remove name s)

  -- The file is closed where a write fails, too, and the first error counts.
  abbrev closing : Bytes → State × Option CallError → State × Option CallError
  closing name (s, none) = close name s
  closing name (s, some e) = ((close name s).0, some e)

  abbrev read_whole : Bool → Call State
  read_whole true s = (s, none)
  read_whole false s = (s, some bad_stream)

  unfoldable pub fill : Bytes → Bytes → Bool → Call State
  fill name body whole s = closing name ((write name body >> read_whole whole) s)

  -- `writeEntry`: the copy of a body that breaks off writes what there is, and fails.
  unfoldable pub write_entry : WriteJob → Bool → Call State
  unfolding make_room fill
  write_entry j whole =
      make_room j.name
      >> create j.name j.mode
      >> fill j.name j.body whole
      >> chmod j.name j.mode
      >> chtimes j.name j.mtime

  -- `writeFileBytes`
  unfoldable pub write_file_bytes : WriteJob → Call State
  unfolding make_room
  write_file_bytes j =
      make_room j.name
      >> create j.name j.mode
      >> (λ s. closing j.name (write j.name j.body s))
      >> chmod j.name j.mode
      >> chtimes j.name j.mtime

  unfoldable pub make_directory : Bytes → ℕ → Call State
  make_directory name mode = mkdir_all name >> chmod name mode

  unfoldable pub do_ordered : Ordered → Call State
  unfolding write_entry make_room
  do_ordered (large_file j whole) = write_entry j whole
  do_ordered (make_symlink target name) = make_room name >> symlink target name
  do_ordered (make_link target name) = make_room name >> link target name

  -- The serial extraction, that of a loop without a pool.
  unfoldable pub untar_serial : List Action → Call State
  unfolding make_directory write_file_bytes do_ordered
  untar_serial [] s = (s, none)
  untar_serial (skip ∷ acts) s = untar_serial acts s
  untar_serial (make_dir name mode ∷ acts) s = (make_directory name mode >> untar_serial acts) s
  untar_serial (queue_file j false ∷ acts) s = fail_with bad_stream s
  untar_serial (queue_file j true ∷ acts) s = (write_file_bytes j >> untar_serial acts) s
  untar_serial (ordered o ∷ acts) s = (do_ordered o >> untar_serial acts) s
  untar_serial (fail_read ∷ acts) s = fail_with bad_stream s
