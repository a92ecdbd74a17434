-- ===== src/Server/Conn/Bindings.antt =====
-- Which node each fid is bound to, and how many fids are bound to the nodes of an inode.
use ninep.Prelude.{ℕ, ◌+◌, ◌≡◌, refl, List, [], ◌∷◌, Option, none, some, ◌==◌, if◌then◌else◌, arith}
use ninep.Server.FidTable.{FidTable, get, delete, write}
use ninep.Server.Conn.Run.{Fid}

abbrev pub Bindings : Type 0
Bindings = List (ℕ × ℕ)

unfoldable pub bindings : FidTable ℕ ℕ → Bindings
bindings [] = []
bindings ((f, fs) ∷ ft) = (f, fs.node) ∷ bindings ft

unfoldable pub node_at : Bindings → ℕ → Option ℕ
node_at [] fid = none
node_at ((f, n) ∷ bs) fid = let rest = node_at bs fid in if f == fid then some n else rest

unfoldable pub is_inode : Option ℕ → ℕ → ℕ
is_inode none i = 0
is_inode (some j) i = if i == j then 1 else 0

-- `inode` is the inode that a node embeds.
unfoldable pub holders : (ℕ → Option ℕ) → Bindings → ℕ → ℕ
unfolding is_inode
holders inode [] i = 0
holders inode ((f, n) ∷ bs) i = is_inode (inode n) i + holders inode bs i

pub node_at-get :
    (ft : FidTable ℕ ℕ) (fid : ℕ) (fs : Fid)
    → get ft fid ≡ some fs
    → node_at (bindings ft) fid ≡ some fs.node
unfolding get node_at bindings
node_at-get [] fid fs h = cc
node_at-get ((f, gs) ∷ ft) fid fs h = ground (arith, node_at-get ft fid fs)

pub bindings-write :
    (ft : FidTable ℕ ℕ) (fid : ℕ) (fs : Fid)
    → node_at (bindings ft) fid ≡ some fs.node
    → bindings (write fid fs ft) ≡ bindings ft
unfolding write node_at bindings
bindings-write [] fid fs h = refl
bindings-write ((f, gs) ∷ ft) fid fs h = ground (arith, bindings-write ft fid fs)

pub delete-absent : (ft : FidTable ℕ ℕ) (fid : ℕ) → get ft fid ≡ none → delete fid ft ≡ ft
unfolding get delete
delete-absent [] fid e = refl
delete-absent ((f, gs) ∷ ft) fid e = ground (arith, delete-absent ft fid)

module _ (inode : ℕ → Option ℕ) (i : ℕ) where
  pub holders-write :
      (ft : FidTable ℕ ℕ) (fid : ℕ) (old new : Fid)
      → get ft fid ≡ some old
      → holders inode (bindings (write fid new ft)) i + is_inode (inode old.node) i
        ≡ holders inode (bindings ft) i + is_inode (inode new.node) i
  unfolding get write bindings holders
  holders-write [] fid old new e = cc
  holders-write ((f, fs) ∷ ft) fid old new e = ground (arith, holders-write ft fid old new)

  pub holders-delete :
      (ft : FidTable ℕ ℕ) (fid : ℕ) (fs : Fid)
      → get ft fid ≡ some fs
      → holders inode (bindings (delete fid ft)) i + is_inode (inode fs.node) i
        ≡ holders inode (bindings ft) i
  unfolding get delete bindings holders
  holders-delete [] fid fs e = cc
  holders-delete ((f, gs) ∷ ft) fid fs e = ground (arith, holders-delete ft fid fs)
