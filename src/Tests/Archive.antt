-- ===== src/Tests/Archive.antt =====
-- The extraction at concrete archives, on a disk that has the contents of its files only.
use kernelbuild_buildkit.Common.{
  ◌<◌, ◌≤◌, ◌⊎◌, true, List, [], ◌∷◌, ◌++◌, ◌≡◌, ◌≢◌, ◌∙◌, refl, sym, ap, fun_ext, Option, none,
  some, Bytes, codes, beq, beq_iff, beq_refl, arith, if◌then◌else◌, All, has_prefix, drop, join,
  length,
}
use kernelbuild_buildkit.Extract.{
  Header, Stream, eof, entry, WriteJob, Action, actions_of, untar_serial, write_file_bytes,
  make_directory, type_reg, type_dir, Typeflag,
}
use kernelbuild_buildkit.Extract.Disk.{
  Root, CallError, not_exist, refused, Call, ok_state, carry, unless_missing,
}
use kernelbuild_buildkit.Extract.Names.{strip_components}
use kernelbuild_buildkit.Extract.Names.Plain.{strip_components-join}
use kernelbuild_buildkit.Extract.Pool.{
  Turn, read_next, worker, start, run_turns, is_final, untar_result, turn, Pool, read_turn,
}
use kernelbuild_buildkit.Extract.Pool.Ends.{CanGo, untar-ends}
use kernelbuild_buildkit.Extract.Pool.Work.{work_left}
use kernelbuild_buildkit.Extract.Pool.Serial.{Orderly, untar-serial}

abbrev Files : Type 0
Files = Bytes → Option Bytes

abbrev set_file : Bytes → Option Bytes → Files → Files
set_file k v s i = if beq k i then v else s i

abbrev removed : Option Bytes → Bytes → Files → Files × Option CallError
removed none name s = (s, some not_exist)
removed (some b) name s = (set_file name none s, none)

abbrev created : Option Bytes → Bytes → Files → Files × Option CallError
created none name s = (set_file name (some []) s, none)
created (some b) name s = (s, some (refused name))

abbrev linked : Option Bytes → Bytes → Files → Files × Option CallError
linked none name s = (s, some not_exist)
linked (some b) name s = (set_file name (some b) s, none)

abbrev nothing : Call Files
nothing s = (s, none)

-- `real` is the file that a name leads to, through the links on its way.
abbrev disk_by : (Bytes → Bytes) → Root
disk_by real = record {
  State = Files;
  mkdir_all = λ _. nothing;
  remove = λ name s. removed (s (real name)) (real name) s;
  create = λ name mode s. created (s (real name)) (real name) s;
  write = λ name text s. (set_file (real name) (some text) s, none);
  close = λ _. nothing;
  chmod = λ _ _. nothing;
  chtimes = λ _ _. nothing;
  symlink = λ target name. nothing;
  link = λ old name s. linked (s (real old)) (real name) s;
}

abbrev disk : Root
disk = disk_by (λ name. name)

abbrev saved : WriteJob → Files → Files
saved j = set_file j.name (some j.body)

set_file-set_file :
    (k : Bytes) (v w : Option Bytes) (s : Files) → set_file k v (set_file k w s) ≡ set_file k v s
set_file-set_file k v w s = fun_ext (λ i. ground arith)

set_file_comm :
    (k l : Bytes) (v w : Option Bytes) (s : Files)
    → k ≢ l
    → set_file k v (set_file l w s) ≡ set_file l w (set_file k v s)
set_file_comm k l v w s ne = fun_ext (λ i. ground (arith, beq_iff k i, beq_iff l i, ne))

-- After `make_room` the name is free, and the other files are there.
record IsRoom (name : Bytes) (s : Files) (r : Files × Option CallError) : Type 0 where
  well : r.1 ≡ none
  free : r.0 name ≡ none
  others : (v : Option Bytes) → set_file name v r.0 ≡ set_file name v s

removed-IsRoom :
    (name : Bytes) (s : Files) (o : Option Bytes)
    → s name ≡ o
    → IsRoom name s (unless_missing (removed o name s))
removed-IsRoom name s none e = record { well = refl; free = e; others = λ v. refl }
removed-IsRoom name s (some b) e = record {
  well = refl;
  free = rw beq_refl refl;
  others = λ v. set_file-set_file name v none s;
}

infixl 5 ◌>>>◌
abbrev ◌>>>◌ : Files × Option CallError → Call Files → Files × Option CallError
r >>> q = carry r q

fill_room :
    (j : WriteJob) (s : Files) (r : Files × Option CallError)
    → IsRoom j.name s r
    → ok_state (
        r
        >>> (λ t. created (t j.name) j.name t)
        >>> (λ t. (set_file j.name (some j.body) t, none))
        >>> nothing
        >>> nothing)
      ≡ some (saved j s)
fill_room j s (t, none) h =
    rw (h.free)
      (ap some (set_file-set_file j.name (some j.body) (some []) t ∙ h.others (some j.body)))
fill_room j s (t, some e) h = absurd (cc (h.well))

write_file_bytes-saved :
    (j : WriteJob) (s : Files) → ok_state (write_file_bytes disk j s) ≡ some (saved j s)
unfolding write_file_bytes
write_file_bytes-saved j s =
    fill_room j s (unless_missing (removed (s j.name) j.name s))
      (removed-IsRoom j.name s (s j.name) refl)

-- On this disk every archive is in order.
disk-Orderly : Orderly disk (λ _. Unit) (λ _. Unit)
unfolding make_directory
disk-Orderly = record {
  keeps = λ a k s t fine e. tt;
  files = λ j k _ _ ne s _.
      rw
        (
          write_file_bytes-saved j s,
          write_file_bytes-saved k s,
          write_file_bytes-saved k (saved j s),
          write_file_bytes-saved j (saved k s),
        )
        (ap some (set_file_comm k.name j.name (some k.body) (some j.body) s (λ e. ne (sym e))));
  dirs = λ name mode k _ _ s _. rw (write_file_bytes-saved k s) refl;
}

abbrev header : Typeflag → Bytes → Bytes → Header
header flag name body = record {
  name = name;
  typeflag = flag;
  linkname = codes "tree/e";
  size = length body;
  perm = 0x1a4;
  mod_time = 1;
  body = body;
  whole = true;
}

abbrev small_archive : Stream
small_archive = entry (header type_dir (codes "tree/d/") []) (
    entry (header type_reg (codes "tree/d/f") (codes "old"))
      (entry (header type_reg (codes "tree/e/f") (codes "new")) eof))

abbrev no_files : Files
no_files _ = none

-- The reader goes first, and the workers in either order.
abbrev readings : List Turn
readings = read_next ∷ read_next ∷ read_next ∷ read_next ∷ []

abbrev one_way : List Turn
one_way = readings ++ (worker 0 ∷ worker 1 ∷ [])

abbrev other_way : List Turn
other_way = readings ++ (worker 1 ∷ worker 0 ∷ [])

abbrev actions : List Action
actions = actions_of none 1 small_archive

pool_final : is_final disk (run_turns disk one_way (start 2 actions no_files)) ≡ true
unfolding actions_of run_turns start turn read_turn
pool_final = refl

known : All (λ _. Unit {0}) actions
unfolding actions_of
known = (tt, (tt, (tt, tt)))

untar-serial_example :
    ok_state (untar_result disk (run_turns disk one_way (start 2 actions no_files)))
    ≡ ok_state (untar_serial disk actions no_files)
untar-serial_example =
    untar-serial disk (λ _. Unit) (λ _. Unit) disk-Orderly 2 1 none small_archive no_files one_way
      known tt pool_final

untar-ends_example :
    ((t : Turn) (q : Pool Files)
      → turn disk t (run_turns disk one_way (start 2 actions no_files)) ≡ some q
      → work_left q < work_left (run_turns disk one_way (start 2 actions no_files)))
    × ((is_final disk (run_turns disk one_way (start 2 actions no_files)) ≡ true)
        ⊎ CanGo disk (run_turns disk one_way (start 2 actions no_files)))
    × ((us : List Turn) × (is_final disk
            (run_turns disk us (run_turns disk one_way (start 2 actions no_files)))
          ≡ true)
        × (length us ≤ work_left (run_turns disk one_way (start 2 actions no_files))))
untar-ends_example = untar-ends disk 2 actions no_files one_way

strip_components-join_example :
    strip_components
      (join (b'/' ∷ []) ((codes "linux-6.1" ∷ []) ++ codes "mm" ∷ codes "slab.c" ∷ []))
      1
    ≡ some (join (b'/' ∷ []) (codes "mm" ∷ codes "slab.c" ∷ []))
unfolding beq
strip_components-join_example =
    strip_components-join (codes "linux-6.1" ∷ []) (codes "mm") (codes "slab.c" ∷ []) refl

-- Where d is a link to e, the two names are one file. They go to different workers, so what it
-- holds at the end depends on their order; the serial extraction leaves the later one.
abbrev through_link : Bytes → Bytes
through_link name = if has_prefix name (codes "d/") then b'e' ∷ drop 1 name else name

abbrev linked_disk : Root
linked_disk = disk_by through_link

abbrev at_end : List Turn → Option Bytes
at_end ts =
    (untar_result linked_disk (run_turns linked_disk ts (start 2 actions no_files))).0 (codes "e/f")

linked_files-race :
    (at_end one_way ≡ some (codes "new"))
    × (at_end other_way ≡ some (codes "old"))
    × ((untar_serial linked_disk actions no_files).0 (codes "e/f") ≡ some (codes "new"))
unfolding actions_of run_turns start turn read_turn untar_serial has_prefix beq
linked_files-race = (refl, refl, refl)
