-- ===== src/Server/Handlers/References/Open.antt =====
-- The handlers that open, create, and walk to an extended attribute.
use ninep.Prelude.{ℕ, refl, [], Option, none, some}
use ninep.Proto.Base.{Bytes}
use ninep.P9l.Open.{Tlopen, Tlcreate}
use ninep.P9l.Xattr.{Txattrwalk}
use ninep.P9u.Open.{Topen, Tcreate}
use ninep.Server.Errno.{ebadf}
use ninep.Server.Fid.{opened}
use ninep.Server.FidTable.Cases.{mark_opened_cases, update_and_open_cases}
use ninep.Server.Conn.{Call, Backend, Conn, ◌>>=◌, ◌>>◌, give, proceed}
use ninep.Server.Conn.Run.{inc_ref_node, dec_ref_node, release_file_handle}
use ninep.Server.Conn.Bindings.{bindings-write, node_at-get}
use ninep.Server.Conn.Calm.{
  Same, same_trans, Calm, Calm-guard, Calm-need, Calm-call, same_release, same_orphan,
}
use ninep.Server.Conn.Sound.{
  Settled, kept, undone, Sound, Sound-bind, Sound-then, Sound-Firm, Sound-Firm_then, Sound-get,
  Sound-if, Firm-give, Firm-ask, Firm-then,
}
use ninep.Server.Conn.Sound.Steps.{Sound-add, Counted-write}
use ninep.Server.Handlers.References.Plain.{calm, Firm-register}
use ninep.Server.Handlers.Open.{
  marked, mark_opened, open_fid, handle_lopen, handle_u_open, rebound, move_to_child, create_in,
  handle_lcreate, handle_u_create,
}
use ninep.Server.Handlers.Xattr.{
  add_xattr_read_fid, xattrwalk_list, xattrwalk_get, xattrwalk_simple, xattrwalk_by,
  handle_xattrwalk,
}

module _ (b : Backend) where
  open b use {World, inode}

  same_freed : (handle : Option ℕ) (c : Conn World) → Same c (release_file_handle b handle c)
  same_freed handle c = same_release b handle c

  Calm-mark : (fid : ℕ) (handle : Option ℕ) {o : Option (ℕ × ℕ)} → Calm o (mark_opened b fid handle)
  unfolding mark_opened marked
  Calm-mark fid handle = record {
    calmly = λ c p.
        mark_opened_cases c.fids fid (λ r. Same c (marked b handle r c).1) handle
          (λ e. same_freed handle c) (λ fs e s. same_freed handle c)
          (λ fs e s. record {
            fids =
                bindings-write c.fids fid (record fs { state = opened; handle = handle })
                  (node_at-get c.fids fid fs e);
            refs = λ i. refl;
          });
  }

  Calm-open_fid : (fid flags : ℕ) {o : Option (ℕ × ℕ)} → Calm o (open_fid b fid flags)
  unfolding open_fid
  Calm-open_fid fid flags = search (calm, Calm-mark) depth 12

  pub Calm-lopen : (m : Tlopen) → Calm none (handle_lopen b m)
  unfolding handle_lopen
  Calm-lopen m = search (calm, Calm-open_fid) depth 12

  pub Calm-u_open : (m : Topen) → Calm none (handle_u_open b m)
  unfolding handle_u_open
  Calm-u_open m = search (calm, Calm-open_fid) depth 12

  Sound-move :
      (fid child : ℕ) (handle : Option ℕ) {o : Option (ℕ × ℕ)}
      → Sound inode o (move_to_child b fid child handle)
  unfolding move_to_child rebound inc_ref_node dec_ref_node ◌>>◌ ◌>>=◌ proceed give
  Sound-move fid child handle = record {
    settles = λ c p t.
        update_and_open_cases c.fids fid (λ r. Settled inode c (rebound b child handle r c)) child
          handle (λ e. undone ebadf _ (same_trans (same_freed handle c) (same_orphan b child _)))
          (λ fs e s. undone ebadf _ (same_trans (same_freed handle c) (same_orphan b child _)))
          (λ fs e s. kept tt _ (
            Counted-write b c fid fs (record fs { node = child; state = opened; handle = handle }) e
              t));
  }

  Sound-create_in :
      (fid : ℕ) (name : Bytes) (flags mode gid : ℕ) {o : Option (ℕ × ℕ)}
      → Sound inode o (create_in b fid name flags mode gid)
  unfolding create_in
  Sound-create_in fid name flags mode gid = Sound-get inode fid _ λ fs.
      Sound-then inode (Calm-guard _ _) (
        Sound-then inode (Calm-guard _ _) (
          Sound-bind inode _ (Calm-need _ _) (λ create. Sound-bind inode _ (Calm-call b _) (λ r.
            Sound-Firm_then inode (Sound-move fid r.0 r.1)
              (Firm-then inode (Firm-register b fs.node r.0 name) (Firm-ask inode _))))))

  pub Sound-lcreate : (m : Tlcreate) → Sound inode none (handle_lcreate b m)
  unfolding handle_lcreate
  Sound-lcreate m =
      Sound-Firm inode _ (Sound-create_in m.fid m.name m.flags m.mode m.gid)
        (λ r. Firm-give inode _)

  pub Sound-u_create : (m : Tcreate) → Sound inode none (handle_u_create b m)
  unfolding handle_u_create
  Sound-u_create m = Sound-bind inode _ (Calm-need _ _) λ flags.
      Sound-then inode (Calm-guard _ _)
        (Sound-Firm inode _ (Sound-create_in m.fid m.name flags m.perm 0) (λ r. Firm-give inode _))

  Sound-add_xattr :
      (fid node : ℕ) (name payload : Bytes) {o : Option (ℕ × ℕ)}
      → Sound inode o (add_xattr_read_fid b fid node name payload)
  unfolding add_xattr_read_fid
  Sound-add_xattr fid node name payload = Sound-add b fid _ (Firm-give inode _)

  Sound-xattrwalk_simple :
      (m : Txattrwalk) (node : ℕ) {o : Option (ℕ × ℕ)} → Sound inode o (xattrwalk_simple b m node)
  unfolding xattrwalk_simple xattrwalk_list xattrwalk_get
  Sound-xattrwalk_simple m node =
      Sound-if inode _
        (Sound-bind inode _ (Calm-need _ _)
          (λ l. Sound-bind inode _ (Calm-call b l) (λ names. Sound-add_xattr m.new_fid node [] _)))
        (Sound-bind inode _ (Calm-need _ _) (λ g.
          Sound-bind inode _ (Calm-call b (g m.name))
            (λ p. Sound-add_xattr m.new_fid node m.name p)))

  Sound-xattrwalk_by :
      (raw : Option (Bytes → Call World Bytes)) (m : Txattrwalk) (node : ℕ) {o : Option (ℕ × ℕ)}
      → Sound inode o (xattrwalk_by b raw m node)
  unfolding xattrwalk_by
  Sound-xattrwalk_by none m node = Sound-xattrwalk_simple m node
  Sound-xattrwalk_by (some raw) m node =
      Sound-bind inode _ (Calm-call b (raw m.name)) (λ p. Sound-add_xattr m.new_fid node m.name p)

  pub Sound-xattrwalk : (m : Txattrwalk) → Sound inode none (handle_xattrwalk b m)
  unfolding handle_xattrwalk
  Sound-xattrwalk m =
      Sound-get inode m.fid _ (λ fs. Sound-xattrwalk_by (b.raw_xattrwalk fs.node) m fs.node)
