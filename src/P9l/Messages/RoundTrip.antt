-- ===== src/P9l/Messages/RoundTrip.antt =====
-- proto/p9l/codec.go: every message's type byte names its reader.
use ninep.Prelude.{◌≡◌, ◌∙◌, ap, refl, none}
use ninep.Proto.Base.{Bytes, Result, ok, Decoder}
use ninep.P9l.Open.RoundTrip.{
  rlerror_reads, tstatfs_reads, rstatfs_reads, tlopen_reads, rlopen_reads, tlcreate_reads,
  rlcreate_reads,
}
use ninep.P9l.Make.RoundTrip.{tsymlink_reads, rsymlink_reads, tmknod_reads, rmknod_reads}
use ninep.P9l.Rename.RoundTrip.{trename_reads, rrename_reads, treadlink_reads, rreadlink_reads}
use ninep.P9l.Attributes.RoundTrip.{tgetattr_reads, rgetattr_reads, tsetattr_reads, rsetattr_reads}
use ninep.P9l.Xattr.RoundTrip.{
  txattrwalk_reads, rxattrwalk_reads, txattrcreate_reads, rxattrcreate_reads, treaddir_reads,
  rreaddir_reads, tfsync_reads, rfsync_reads,
}
use ninep.P9l.Lock.RoundTrip.{tlock_reads, rlock_reads, tgetlock_reads, rgetlock_reads}
use ninep.P9l.Make.RoundTrip.{tlink_reads, rlink_reads, tmkdir_reads, rmkdir_reads}
use ninep.P9l.Rename.RoundTrip.{trenameat_reads, rrenameat_reads, tunlinkat_reads, runlinkat_reads}
use ninep.Proto.Laws.Reads.{Reads, body_limit, mapped}
use ninep.Proto.Frame.{switch}
use ninep.P9l.Messages.{
  Message, MessageInRange, rlerror, tstatfs, rstatfs, tlopen, rlopen, tlcreate, rlcreate, tsymlink,
  rsymlink, tmknod, rmknod, trename, rrename, treadlink, rreadlink, tgetattr, rgetattr, tsetattr,
  rsetattr, txattrwalk, rxattrwalk, txattrcreate, rxattrcreate, treaddir, rreaddir, tfsync, rfsync,
  tlock, rlock, tgetlock, rgetlock, tlink, rlink, tmkdir, rmkdir, trenameat, rrenameat, tunlinkat,
  runlinkat, shared, p9l_new_message, p9l_type, p9l_encode, p9l_cases, p9l_choose, p9l_shared,
}
use ninep.Proto.Messages.{BaseMessage, BaseMessageInRange, tversion, base_type, base_encode}
use ninep.Proto.Messages.RoundTrip.{base-Constructs}

abbrev pub Constructs : (Result (Decoder Message)) → Result Bytes → Message → Type 0
Constructs r w m = (read : Decoder Message) × (r ≡ ok read) × Reads w body_limit read m

-- No shared message has a type byte of this dialect's own.
not_own : (m : BaseMessage) → switch (base_type m) p9l_cases ≡ none
unfolding switch p9l_cases base_type
not_own (tversion m) = refl
not_own m = refl

shared-Constructs :
    (m : BaseMessage)
    → BaseMessageInRange m
    → Constructs (p9l_new_message (base_type m)) (base_encode m) (shared m)
unfolding p9l_new_message p9l_choose p9l_shared
shared-Constructs m h =
    let (read, made, reads) = base-Constructs m h in
    (_, ap (λ o. p9l_choose o (base_type m)) (not_own m) ∙ ap p9l_shared made, mapped shared reads)

pub p9l-Constructs :
    (m : Message) → MessageInRange m → Constructs (p9l_new_message (p9l_type m)) (p9l_encode m) m
unfolding p9l_new_message p9l_type p9l_encode p9l_cases switch
p9l-Constructs (shared m) h = shared-Constructs m h
p9l-Constructs (rlerror m) h = (_, refl, mapped rlerror (rlerror_reads m h))
p9l-Constructs (tstatfs m) h = (_, refl, mapped tstatfs (tstatfs_reads m h))
p9l-Constructs (rstatfs m) h = (_, refl, mapped rstatfs (rstatfs_reads m h))
p9l-Constructs (tlopen m) h = (_, refl, mapped tlopen (tlopen_reads m h))
p9l-Constructs (rlopen m) h = (_, refl, mapped rlopen (rlopen_reads m h))
p9l-Constructs (tlcreate m) h = (_, refl, mapped tlcreate (tlcreate_reads m h))
p9l-Constructs (rlcreate m) h = (_, refl, mapped rlcreate (rlcreate_reads m h))
p9l-Constructs (tsymlink m) h = (_, refl, mapped tsymlink (tsymlink_reads m h))
p9l-Constructs (rsymlink m) h = (_, refl, mapped rsymlink (rsymlink_reads m h))
p9l-Constructs (tmknod m) h = (_, refl, mapped tmknod (tmknod_reads m h))
p9l-Constructs (rmknod m) h = (_, refl, mapped rmknod (rmknod_reads m h))
p9l-Constructs (trename m) h = (_, refl, mapped trename (trename_reads m h))
p9l-Constructs (rrename m) h = (_, refl, mapped rrename (rrename_reads m))
p9l-Constructs (treadlink m) h = (_, refl, mapped treadlink (treadlink_reads m h))
p9l-Constructs (rreadlink m) h = (_, refl, mapped rreadlink (rreadlink_reads m h))
p9l-Constructs (tgetattr m) h = (_, refl, mapped tgetattr (tgetattr_reads m h))
p9l-Constructs (rgetattr m) h = (_, refl, mapped rgetattr (rgetattr_reads m h))
p9l-Constructs (tsetattr m) h = (_, refl, mapped tsetattr (tsetattr_reads m h))
p9l-Constructs (rsetattr m) h = (_, refl, mapped rsetattr (rsetattr_reads m))
p9l-Constructs (txattrwalk m) h = (_, refl, mapped txattrwalk (txattrwalk_reads m h))
p9l-Constructs (rxattrwalk m) h = (_, refl, mapped rxattrwalk (rxattrwalk_reads m h))
p9l-Constructs (txattrcreate m) h = (_, refl, mapped txattrcreate (txattrcreate_reads m h))
p9l-Constructs (rxattrcreate m) h = (_, refl, mapped rxattrcreate (rxattrcreate_reads m))
p9l-Constructs (treaddir m) h = (_, refl, mapped treaddir (treaddir_reads m h))
p9l-Constructs (rreaddir m) h = (_, refl, mapped rreaddir (rreaddir_reads m))
p9l-Constructs (tfsync m) h = (_, refl, mapped tfsync (tfsync_reads m h))
p9l-Constructs (rfsync m) h = (_, refl, mapped rfsync (rfsync_reads m))
p9l-Constructs (tlock m) h = (_, refl, mapped tlock (tlock_reads m h))
p9l-Constructs (rlock m) h = (_, refl, mapped rlock (rlock_reads m h))
p9l-Constructs (tgetlock m) h = (_, refl, mapped tgetlock (tgetlock_reads m h))
p9l-Constructs (rgetlock m) h = (_, refl, mapped rgetlock (rgetlock_reads m h))
p9l-Constructs (tlink m) h = (_, refl, mapped tlink (tlink_reads m h))
p9l-Constructs (rlink m) h = (_, refl, mapped rlink (rlink_reads m))
p9l-Constructs (tmkdir m) h = (_, refl, mapped tmkdir (tmkdir_reads m h))
p9l-Constructs (rmkdir m) h = (_, refl, mapped rmkdir (rmkdir_reads m h))
p9l-Constructs (trenameat m) h = (_, refl, mapped trenameat (trenameat_reads m h))
p9l-Constructs (rrenameat m) h = (_, refl, mapped rrenameat (rrenameat_reads m))
p9l-Constructs (tunlinkat m) h = (_, refl, mapped tunlinkat (tunlinkat_reads m h))
p9l-Constructs (runlinkat m) h = (_, refl, mapped runlinkat (runlinkat_reads m))
