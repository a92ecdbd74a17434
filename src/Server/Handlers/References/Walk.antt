-- ===== src/Server/Handlers/References/Walk.antt =====
-- handleAttach, handleWalk and the bindings that they make.
use ninep.Prelude.{
  ℕ, refl, List, [], ◌∷◌, ◌++◌, Bool, true, false, ◌==◌, not, ◌&&◌, Option, none, some, length,
}
use ninep.Proto.Base.{Bytes}
use ninep.Proto.Types.{Qid}
use ninep.Proto.Session.{Tattach}
use ninep.Proto.Walk.{Twalk}
use ninep.Server.Errno.{errno_from_error, ebadf, emfile, enotdir}
use ninep.Server.Fid.{new_fid}
use ninep.Server.FidTable.Cases.{if_cases, add_cases, update_cases}
use ninep.Server.Conn.{
  Answer, returns, errors, Call, Backend, Conn, Outcome, Handler, ◌>>=◌, ◌>>◌, give, proceed,
}
use ninep.Server.Conn.Run.{Fid, add_fid, added, inc_ref_node, dec_ref_node}
use ninep.Server.Conn.Calm.{
  Same, same, same_trans, Calm, Calm-give, Calm-fail, Calm-call, Calm-change, Calm-bind, Calm-guard,
  same_unbound,
}
use ninep.Server.Conn.Sound.{
  Settled, kept, undone, Sound, Owing-same, Sound-Calm, Sound-bind, Sound-then, Sound-Firm_then,
  Sound-get, Sound-if, Firm-give, Firm-ask, Firm-bind,
}
use ninep.Server.Conn.Sound.Steps.{Sound-add, Counted-add, Counted-write}
use ninep.Server.Handlers.References.Plain.{calm}
use ninep.Server.Handlers.Walk.{
  resolve_aname, resolve_root, attach_path, handle_attach, step_past, stop_walk, found, looked_up,
  is_dir, walk_step, walk_loop, close_resolved, updated, rebind, bound, bind_new, walk_path,
  finish_walk, clone_fid, walk_names, handle_walk,
}

Calm-elim :
    {World A B : Type 0} {o : Option (ℕ × ℕ)} (r : Option A) (h : Handler World B)
    (f : A → Handler World B)
    → Calm o h
    → ((a : A) → Calm o (f a))
    → Calm o (elim r as (λ x. Handler World B) [ none ↦ h | some a ↦ f a ])
Calm-elim none h f s t = s
Calm-elim (some a) h f s t = t a

module _ (b : Backend) where
  open b use {World, inode}

  Calm-resolve_aname :
      (anames : Option (Bytes → Option ℕ)) (aname : Bytes) {o : Option (ℕ × ℕ)}
      → Calm o (resolve_aname b anames aname)
  unfolding resolve_aname
  Calm-resolve_aname none aname = Calm-give b.root
  Calm-resolve_aname (some anames) aname = search calm

  Calm-resolve_root :
      (attach : Option (Tattach → Call World ℕ)) (m : Tattach) {o : Option (ℕ × ℕ)}
      → Calm o (resolve_root b attach m)
  unfolding resolve_root
  Calm-resolve_root (some attach) m = Calm-call b (attach m)
  Calm-resolve_root none m = Calm-resolve_aname b.anames m.aname

  pub Sound-attach : (m : Tattach) → Sound inode none (handle_attach b m)
  unfolding handle_attach
  Sound-attach m = Sound-then inode (Calm-guard _ _) (
      Sound-bind inode _ (Calm-resolve_root b.attacher m) (λ node.
        Sound-add b m.fid (new_fid node (attach_path b m.aname))
          (Firm-bind inode _ (Firm-ask inode _) (λ q. Firm-give inode _))))

  same_close : (start current : ℕ) (c : Conn World) → Same c (close_resolved b start current c)
  unfolding close_resolved
  same_close start current c =
      if_cases {A = Conn World} (Same c) (current == start) (λ e. same c)
        (λ e. same_unbound b current c)

  same_past :
      (start current child : ℕ) (c : Conn World) → Same c (step_past b start current child c)
  unfolding step_past
  same_past start current child c =
      if_cases {A = Conn World} (Same c) (not (current == start) && not (current == child))
        (λ e. same_unbound b current c) (λ e. same c)

  Calm-stop : (first : Bool) (e : ℕ) {o : Option (ℕ × ℕ)} → Calm o (stop_walk b first e)
  unfolding stop_walk
  Calm-stop true e = Calm-fail e
  Calm-stop false e = Calm-give none

  same_found :
      (start : ℕ) (first : Bool) (current : ℕ) (r : Answer ℕ × World) (c : Conn World)
      → Same c (found b start first current r c).1
  unfolding found
  same_found start first current (returns child, w) c =
      same_trans {d = record c { world = w }} (record { fids = refl; refs = λ i. refl })
        (same_past start current child _)
  same_found start first current (errors e, w) c =
      same_trans {d = record c { world = w }} (record { fids = refl; refs = λ i. refl })
        ((Calm-stop first (errno_from_error b.errno_from_unix e) {o = none}).calmly _ tt)

  same_looked_up :
      (start : ℕ) (first : Bool) (current : ℕ) (l : Option (Bytes → Call World ℕ)) (name : Bytes)
      (c : Conn World)
      → Same c (looked_up b start first current l name c).1
  unfolding looked_up
  same_looked_up start first current none name c = (Calm-stop first enotdir {o = none}).calmly c tt
  same_looked_up start first current (some l) name c =
      same_found start first current (l name c.world) c

  Calm-step :
      (start : ℕ) (first : Bool) (current : ℕ) (name : Bytes) {o : Option (ℕ × ℕ)}
      → Calm o (walk_step b start first current name)
  unfolding walk_step
  Calm-step start first current name = record {
    calmly = λ c p.
        if_cases {A = Outcome (Option (ℕ × Qid)) × Conn World} (λ r. Same c r.1)
          (is_dir (b.qid c.world current))
          (λ e. same_looked_up start first current (b.lookup current) name c)
          (λ e. (Calm-stop first enotdir {o = none}).calmly c tt);
  }

  Calm-loop :
      (start : ℕ) (first : Bool) (current : ℕ) (qids : List Qid) (names : List Bytes)
      {o : Option (ℕ × ℕ)}
      → Calm o (walk_loop b start first current qids names)
  unfolding walk_loop
  Calm-loop start first current qids [] = Calm-give (qids, current)
  Calm-loop start first current qids (name ∷ names) =
      Calm-bind _ (Calm-step start first current name) (λ r.
        Calm-elim r _ _ (Calm-give (qids, current))
          (λ next. Calm-loop start false next.0 (qids ++ (next.1 ∷ [])) names))

  Sound-rebind :
      (fid : ℕ) (src : Fid) (current : ℕ) (path : Bytes) {o : Option (ℕ × ℕ)}
      → Sound inode o (rebind b fid src current path)
  unfolding rebind updated inc_ref_node dec_ref_node ◌>>◌ ◌>>=◌ proceed give
  Sound-rebind fid src current path = record {
    settles = λ c p t.
        update_cases c.fids fid (λ r. Settled inode c (updated b src.node current r c)) current path
          (λ e. kept tt _ (Owing-same inode (same_close src.node current c) t))
          (λ fs e.
            kept tt _ (Counted-write b c fid fs (record fs { node = current; path = path }) e t));
  }

  Sound-bind_new :
      (fid : ℕ) (src : Fid) (current : ℕ) (path : Bytes) {o : Option (ℕ × ℕ)}
      → Sound inode o (bind_new b fid src current path)
  unfolding bind_new bound add_fid added inc_ref_node
  Sound-bind_new fid src current path = record {
    settles = λ c p t.
        add_cases c.fids fid (λ r. Settled inode c (bound b src.node current (added r c)))
          (new_fid current path) c.max_fids (λ h l. undone emfile _ (same_close src.node current c))
          (λ old e. undone ebadf _ (same_close src.node current c))
          (λ h e. kept tt _ (Counted-add b c fid (new_fid current path) t));
  }

  Sound-finish :
      (m : Twalk) (src : Fid) (qids : List Qid) (current : ℕ) {o : Option (ℕ × ℕ)}
      → Sound inode o (finish_walk b m src qids current)
  unfolding finish_walk
  Sound-finish m src qids current =
      Sound-if inode (length qids == length m.names)
        (Sound-if inode (m.fid == m.new_fid)
          (Sound-rebind m.fid src current (walk_path b src.path m.names))
          (Sound-bind_new m.new_fid src current (walk_path b src.path m.names)))
        (Sound-Calm inode (Calm-change _ (same_close src.node current)))

  Sound-clone : (m : Twalk) (src : Fid) {o : Option (ℕ × ℕ)} → Sound inode o (clone_fid b m src)
  unfolding clone_fid
  Sound-clone m src =
      Sound-if inode (m.fid == m.new_fid) (Sound-Calm inode (Calm-give _))
        (Sound-add b m.new_fid (new_fid src.node src.path) (Firm-give inode _))

  Sound-names : (m : Twalk) (src : Fid) {o : Option (ℕ × ℕ)} → Sound inode o (walk_names b m src)
  unfolding walk_names
  Sound-names m src = Sound-then inode (Calm-guard _ _) (
      Sound-bind inode _ (Calm-loop src.node true src.node [] m.names) (λ walked.
        Sound-Firm_then inode (Sound-finish m src walked.0 walked.1) (Firm-give inode _)))

  pub Sound-walk : (m : Twalk) → Sound inode none (handle_walk b m)
  unfolding handle_walk
  Sound-walk m =
      Sound-get inode m.fid _
        (λ src. Sound-if inode (length m.names == 0) (Sound-clone m src) (Sound-names m src))
