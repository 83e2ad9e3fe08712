-- ===== src/Common/Disk.antt =====
-- The file system as the code that writes certificates uses it. Different paths name different files. The files that were written are kept
-- with their contents, the last first; a read finds the last of them.
use mathlib.Core.Path.{◌≡◌}
use mathlib.Core.Option.{Option, none, some}
use native.Mathlib.Omega.{arith}
use mathlib.Core.List.{List, ◌∷◌, ◌++◌}
use place_net_hamlet.Common.Results.{Result, ok, err, map_err}
use place_net_hamlet.Common.Texts.{Text}

pub record Disk : Type 0 where
  pub parent : Text → Option Text
  pub create_dir_all : Text → Result Text (Unit {0})
  pub write : Text → Text → Result Text (Unit {0})

abbrev pub Files : Type 0
Files = List (Text × Text)

-- `create_dir_all` of the parent, where there is one.
unfoldable pub create_parent : Disk → Text → Text → Result Text (Unit {0})
create_parent disk what path = elim (disk.parent path) [
  | none ↦ ok tt
  | some dir ↦ map_err (λ e. what ++ e) (disk.create_dir_all dir)
]

-- A write, and then the rest.
unfoldable pub write_then :
    Disk
    → Text
    → Text
    → Text
    → (Files → Files × Result Text (Unit {0}))
    → Files
    → Files × Result Text (Unit {0})
write_then disk what path contents next files =
    elim (map_err (λ e. what ++ e) (disk.write path contents)) [
      | err e ↦ (files, err e)
      | ok _ ↦ next ((path, contents) ∷ files)
    ]

-- A sequence of writes succeeds only past each write.
pub write_then_ok :
    (disk : Disk) (what path contents : Text) (next : Files → Files × Result Text (Unit {0}))
    (files : Files)
    → (write_then disk what path contents next files).1 ≡ ok tt
    → write_then disk what path contents next files ≡ next ((path, contents) ∷ files)
unfolding write_then
write_then_ok disk what path contents next files h = ground arith
