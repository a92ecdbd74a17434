-- ===== src/Tests/Directories.antt =====
-- A directory in which two entries are made, one of them again, and removed.
use ninep.Prelude.{ℕ, ◌≡◌, refl, List, [], ◌∷◌, false, none, some}
use ninep.Server.Errno.{enoent, eexist, eisdir}
use ninep.Memfs.Dir.{Memory, file, new_dir, lookup, returned, refused, create, mkdir, unlink, make}
use ninep.Server.Inode.{try_add_child, remove_child_if, delete_name}
use ninep.Server.Names.{same}
use ninep.Memfs.Dir.Runs.{
  Call, creates, makes_dir, unlinks, made, unlinked, run, perform, Follows, AreMaps, run-Follows,
}
use ninep.Memfs.Dir.Names.{IsMap}
use ninep.Memfs.File.{new_file}

abbrev no_memory : Memory
no_memory = record {
  tree = record { parent = λ i. none; children = λ i. []; refs = λ i. 0; prunable = λ i. false };
  nodes = λ i. file (new_file []);
  qids = λ i. record { type = 0; version = 0; path = 0 };
  count = 0;
  gen = 0;
}

abbrev root : Memory
root = (new_dir no_memory).1

abbrev a : List ℕ
a = 97 ∷ []

abbrev b : List ℕ
b = 98 ∷ []

abbrev calls : List Call
calls =
    creates 0 a 0
    ∷ makes_dir 0 b 0
    ∷ creates 0 a 0
    ∷ unlinks 0 b 0
    ∷ unlinks 0 a 0
    ∷ unlinks 0 a 0
    ∷ []

answers :
    (run calls root).0
    ≡ made (returned 1)
      ∷ made (returned 2)
      ∷ made (refused eexist)
      ∷ unlinked (some eisdir)
      ∷ unlinked none
      ∷ unlinked (some enoent)
      ∷ []
unfolding run perform create mkdir unlink try_add_child make same remove_child_if delete_name
answers = refl

root-AreMaps : AreMaps root
unfolding AreMaps IsMap make
root-AreMaps d = tt

run-Follows_example :
    Follows calls (run calls root).0 (lookup root) (lookup (run calls root).1)
    × AreMaps (run calls root).1
run-Follows_example = run-Follows calls root root-AreMaps
