-- ===== src/P9l/Messages.antt =====
-- proto/p9l/codec.go: the messages of 9P2000.L, and newMessage.
pub mod RoundTrip
pub mod Canonical
use ninep.Prelude.{ℕ, List, [], ◌∷◌, Option, none, some}
use ninep.Proto.Base.{Bytes, Result, ok, err, Decoder, pure, ◌>>=◌, unknown_type}
use ninep.Proto.MessageType.{
  type_rlerror, type_tstatfs, type_rstatfs, type_tlopen, type_rlopen, type_tlcreate, type_rlcreate,
  type_tsymlink, type_rsymlink, type_tmknod, type_rmknod, type_trename, type_rrename,
  type_treadlink, type_rreadlink, type_tgetattr, type_rgetattr, type_tsetattr, type_rsetattr,
  type_txattrwalk, type_rxattrwalk, type_txattrcreate, type_rxattrcreate, type_treaddir,
  type_rreaddir, type_tfsync, type_rfsync, type_tlock, type_rlock, type_tgetlock, type_rgetlock,
  type_tlink, type_rlink, type_tmkdir, type_rmkdir, type_trenameat, type_rrenameat, type_tunlinkat,
  type_runlinkat,
}
use ninep.Proto.Frame.{Dialect, switch}
use ninep.Proto.Messages.{BaseMessage, BaseMessageInRange, base_type, base_encode, new_base_message}
use ninep.P9l.Open.{
  Rlerror, RlerrorInRange, encode_rlerror, decode_rlerror, Tstatfs, TstatfsInRange, encode_tstatfs,
  decode_tstatfs, Rstatfs, RstatfsInRange, encode_rstatfs, decode_rstatfs, Tlopen, TlopenInRange,
  encode_tlopen, decode_tlopen, Rlopen, RlopenInRange, encode_rlopen, decode_rlopen, Tlcreate,
  TlcreateInRange, encode_tlcreate, decode_tlcreate, Rlcreate, RlcreateInRange, encode_rlcreate,
  decode_rlcreate,
}
use ninep.P9l.Make.{
  Tsymlink, TsymlinkInRange, encode_tsymlink, decode_tsymlink, Rsymlink, RsymlinkInRange,
  encode_rsymlink, decode_rsymlink, Tmknod, TmknodInRange, encode_tmknod, decode_tmknod, Rmknod,
  RmknodInRange, encode_rmknod, decode_rmknod,
}
use ninep.P9l.Rename.{
  Trename, TrenameInRange, encode_trename, decode_trename, Rrename, encode_rrename, decode_rrename,
  Treadlink, TreadlinkInRange, encode_treadlink, decode_treadlink, Rreadlink, RreadlinkInRange,
  encode_rreadlink, decode_rreadlink,
}
use ninep.P9l.Attributes.{
  Tgetattr, TgetattrInRange, encode_tgetattr, decode_tgetattr, Rgetattr, RgetattrInRange,
  encode_rgetattr, decode_rgetattr, Tsetattr, TsetattrInRange, encode_tsetattr, decode_tsetattr,
  Rsetattr, encode_rsetattr, decode_rsetattr,
}
use ninep.P9l.Xattr.{
  Txattrwalk, TxattrwalkInRange, encode_txattrwalk, decode_txattrwalk, Rxattrwalk,
  RxattrwalkInRange, encode_rxattrwalk, decode_rxattrwalk, Txattrcreate, TxattrcreateInRange,
  encode_txattrcreate, decode_txattrcreate, Rxattrcreate, encode_rxattrcreate, decode_rxattrcreate,
  Treaddir, TreaddirInRange, encode_treaddir, decode_treaddir, Rreaddir, RreaddirInRange,
  encode_rreaddir, decode_rreaddir, Tfsync, TfsyncInRange, encode_tfsync, decode_tfsync, Rfsync,
  encode_rfsync, decode_rfsync,
}
use ninep.P9l.Lock.{
  Tlock, TlockInRange, encode_tlock, decode_tlock, Rlock, RlockInRange, encode_rlock, decode_rlock,
  Tgetlock, TgetlockInRange, encode_tgetlock, decode_tgetlock, Rgetlock, RgetlockInRange,
  encode_rgetlock, decode_rgetlock,
}
use ninep.P9l.Make.{
  Tlink, TlinkInRange, encode_tlink, decode_tlink, Rlink, encode_rlink, decode_rlink, Tmkdir,
  TmkdirInRange, encode_tmkdir, decode_tmkdir, Rmkdir, RmkdirInRange, encode_rmkdir, decode_rmkdir,
}
use ninep.P9l.Rename.{
  Trenameat, TrenameatInRange, encode_trenameat, decode_trenameat, Rrenameat, encode_rrenameat,
  decode_rrenameat, Tunlinkat, TunlinkatInRange, encode_tunlinkat, decode_tunlinkat, Runlinkat,
  encode_runlinkat, decode_runlinkat,
}

pub data Message : Type 0 where
  shared : BaseMessage → Message
  rlerror : Rlerror → Message
  tstatfs : Tstatfs → Message
  rstatfs : Rstatfs → Message
  tlopen : Tlopen → Message
  rlopen : Rlopen → Message
  tlcreate : Tlcreate → Message
  rlcreate : Rlcreate → Message
  tsymlink : Tsymlink → Message
  rsymlink : Rsymlink → Message
  tmknod : Tmknod → Message
  rmknod : Rmknod → Message
  trename : Trename → Message
  rrename : Rrename → Message
  treadlink : Treadlink → Message
  rreadlink : Rreadlink → Message
  tgetattr : Tgetattr → Message
  rgetattr : Rgetattr → Message
  tsetattr : Tsetattr → Message
  rsetattr : Rsetattr → Message
  txattrwalk : Txattrwalk → Message
  rxattrwalk : Rxattrwalk → Message
  txattrcreate : Txattrcreate → Message
  rxattrcreate : Rxattrcreate → Message
  treaddir : Treaddir → Message
  rreaddir : Rreaddir → Message
  tfsync : Tfsync → Message
  rfsync : Rfsync → Message
  tlock : Tlock → Message
  rlock : Rlock → Message
  tgetlock : Tgetlock → Message
  rgetlock : Rgetlock → Message
  tlink : Tlink → Message
  rlink : Rlink → Message
  tmkdir : Tmkdir → Message
  rmkdir : Rmkdir → Message
  trenameat : Trenameat → Message
  rrenameat : Rrenameat → Message
  tunlinkat : Tunlinkat → Message
  runlinkat : Runlinkat → Message

-- `Type`
unfoldable pub p9l_type : Message → ℕ
p9l_type (shared m) = base_type m
p9l_type (rlerror m) = type_rlerror
p9l_type (tstatfs m) = type_tstatfs
p9l_type (rstatfs m) = type_rstatfs
p9l_type (tlopen m) = type_tlopen
p9l_type (rlopen m) = type_rlopen
p9l_type (tlcreate m) = type_tlcreate
p9l_type (rlcreate m) = type_rlcreate
p9l_type (tsymlink m) = type_tsymlink
p9l_type (rsymlink m) = type_rsymlink
p9l_type (tmknod m) = type_tmknod
p9l_type (rmknod m) = type_rmknod
p9l_type (trename m) = type_trename
p9l_type (rrename m) = type_rrename
p9l_type (treadlink m) = type_treadlink
p9l_type (rreadlink m) = type_rreadlink
p9l_type (tgetattr m) = type_tgetattr
p9l_type (rgetattr m) = type_rgetattr
p9l_type (tsetattr m) = type_tsetattr
p9l_type (rsetattr m) = type_rsetattr
p9l_type (txattrwalk m) = type_txattrwalk
p9l_type (rxattrwalk m) = type_rxattrwalk
p9l_type (txattrcreate m) = type_txattrcreate
p9l_type (rxattrcreate m) = type_rxattrcreate
p9l_type (treaddir m) = type_treaddir
p9l_type (rreaddir m) = type_rreaddir
p9l_type (tfsync m) = type_tfsync
p9l_type (rfsync m) = type_rfsync
p9l_type (tlock m) = type_tlock
p9l_type (rlock m) = type_rlock
p9l_type (tgetlock m) = type_tgetlock
p9l_type (rgetlock m) = type_rgetlock
p9l_type (tlink m) = type_tlink
p9l_type (rlink m) = type_rlink
p9l_type (tmkdir m) = type_tmkdir
p9l_type (rmkdir m) = type_rmkdir
p9l_type (trenameat m) = type_trenameat
p9l_type (rrenameat m) = type_rrenameat
p9l_type (tunlinkat m) = type_tunlinkat
p9l_type (runlinkat m) = type_runlinkat

-- `EncodeTo`
unfoldable pub p9l_encode : Message → Result Bytes
p9l_encode (shared m) = base_encode m
p9l_encode (rlerror m) = encode_rlerror m
p9l_encode (tstatfs m) = encode_tstatfs m
p9l_encode (rstatfs m) = encode_rstatfs m
p9l_encode (tlopen m) = encode_tlopen m
p9l_encode (rlopen m) = encode_rlopen m
p9l_encode (tlcreate m) = encode_tlcreate m
p9l_encode (rlcreate m) = encode_rlcreate m
p9l_encode (tsymlink m) = encode_tsymlink m
p9l_encode (rsymlink m) = encode_rsymlink m
p9l_encode (tmknod m) = encode_tmknod m
p9l_encode (rmknod m) = encode_rmknod m
p9l_encode (trename m) = encode_trename m
p9l_encode (rrename m) = encode_rrename m
p9l_encode (treadlink m) = encode_treadlink m
p9l_encode (rreadlink m) = encode_rreadlink m
p9l_encode (tgetattr m) = encode_tgetattr m
p9l_encode (rgetattr m) = encode_rgetattr m
p9l_encode (tsetattr m) = encode_tsetattr m
p9l_encode (rsetattr m) = encode_rsetattr m
p9l_encode (txattrwalk m) = encode_txattrwalk m
p9l_encode (rxattrwalk m) = encode_rxattrwalk m
p9l_encode (txattrcreate m) = encode_txattrcreate m
p9l_encode (rxattrcreate m) = encode_rxattrcreate m
p9l_encode (treaddir m) = encode_treaddir m
p9l_encode (rreaddir m) = encode_rreaddir m
p9l_encode (tfsync m) = encode_tfsync m
p9l_encode (rfsync m) = encode_rfsync m
p9l_encode (tlock m) = encode_tlock m
p9l_encode (rlock m) = encode_rlock m
p9l_encode (tgetlock m) = encode_tgetlock m
p9l_encode (rgetlock m) = encode_rgetlock m
p9l_encode (tlink m) = encode_tlink m
p9l_encode (rlink m) = encode_rlink m
p9l_encode (tmkdir m) = encode_tmkdir m
p9l_encode (rmkdir m) = encode_rmkdir m
p9l_encode (trenameat m) = encode_trenameat m
p9l_encode (rrenameat m) = encode_rrenameat m
p9l_encode (tunlinkat m) = encode_tunlinkat m
p9l_encode (runlinkat m) = encode_runlinkat m

abbrev pub MessageInRange : Message → Type 0
MessageInRange (shared m) = BaseMessageInRange m
MessageInRange (rlerror m) = RlerrorInRange m
MessageInRange (tstatfs m) = TstatfsInRange m
MessageInRange (rstatfs m) = RstatfsInRange m
MessageInRange (tlopen m) = TlopenInRange m
MessageInRange (rlopen m) = RlopenInRange m
MessageInRange (tlcreate m) = TlcreateInRange m
MessageInRange (rlcreate m) = RlcreateInRange m
MessageInRange (tsymlink m) = TsymlinkInRange m
MessageInRange (rsymlink m) = RsymlinkInRange m
MessageInRange (tmknod m) = TmknodInRange m
MessageInRange (rmknod m) = RmknodInRange m
MessageInRange (trename m) = TrenameInRange m
MessageInRange (rrename m) = Unit {0}
MessageInRange (treadlink m) = TreadlinkInRange m
MessageInRange (rreadlink m) = RreadlinkInRange m
MessageInRange (tgetattr m) = TgetattrInRange m
MessageInRange (rgetattr m) = RgetattrInRange m
MessageInRange (tsetattr m) = TsetattrInRange m
MessageInRange (rsetattr m) = Unit {0}
MessageInRange (txattrwalk m) = TxattrwalkInRange m
MessageInRange (rxattrwalk m) = RxattrwalkInRange m
MessageInRange (txattrcreate m) = TxattrcreateInRange m
MessageInRange (rxattrcreate m) = Unit {0}
MessageInRange (treaddir m) = TreaddirInRange m
MessageInRange (rreaddir m) = RreaddirInRange m
MessageInRange (tfsync m) = TfsyncInRange m
MessageInRange (rfsync m) = Unit {0}
MessageInRange (tlock m) = TlockInRange m
MessageInRange (rlock m) = RlockInRange m
MessageInRange (tgetlock m) = TgetlockInRange m
MessageInRange (rgetlock m) = RgetlockInRange m
MessageInRange (tlink m) = TlinkInRange m
MessageInRange (rlink m) = Unit {0}
MessageInRange (tmkdir m) = TmkdirInRange m
MessageInRange (rmkdir m) = RmkdirInRange m
MessageInRange (trenameat m) = TrenameatInRange m
MessageInRange (rrenameat m) = Unit {0}
MessageInRange (tunlinkat m) = TunlinkatInRange m
MessageInRange (runlinkat m) = Unit {0}

-- The cases of the switch, each with the DecodeFrom of its message.
unfoldable pub p9l_cases : List (ℕ × Decoder Message)
p9l_cases =
    (type_rlerror, do m ← decode_rlerror; pure (rlerror m))
    ∷ (type_tstatfs, do m ← decode_tstatfs; pure (tstatfs m))
    ∷ (type_rstatfs, do m ← decode_rstatfs; pure (rstatfs m))
    ∷ (type_tlopen, do m ← decode_tlopen; pure (tlopen m))
    ∷ (type_rlopen, do m ← decode_rlopen; pure (rlopen m))
    ∷ (type_tlcreate, do m ← decode_tlcreate; pure (tlcreate m))
    ∷ (type_rlcreate, do m ← decode_rlcreate; pure (rlcreate m))
    ∷ (type_tsymlink, do m ← decode_tsymlink; pure (tsymlink m))
    ∷ (type_rsymlink, do m ← decode_rsymlink; pure (rsymlink m))
    ∷ (type_tmknod, do m ← decode_tmknod; pure (tmknod m))
    ∷ (type_rmknod, do m ← decode_rmknod; pure (rmknod m))
    ∷ (type_trename, do m ← decode_trename; pure (trename m))
    ∷ (type_rrename, do m ← decode_rrename; pure (rrename m))
    ∷ (type_treadlink, do m ← decode_treadlink; pure (treadlink m))
    ∷ (type_rreadlink, do m ← decode_rreadlink; pure (rreadlink m))
    ∷ (type_tgetattr, do m ← decode_tgetattr; pure (tgetattr m))
    ∷ (type_rgetattr, do m ← decode_rgetattr; pure (rgetattr m))
    ∷ (type_tsetattr, do m ← decode_tsetattr; pure (tsetattr m))
    ∷ (type_rsetattr, do m ← decode_rsetattr; pure (rsetattr m))
    ∷ (type_txattrwalk, do m ← decode_txattrwalk; pure (txattrwalk m))
    ∷ (type_rxattrwalk, do m ← decode_rxattrwalk; pure (rxattrwalk m))
    ∷ (type_txattrcreate, do m ← decode_txattrcreate; pure (txattrcreate m))
    ∷ (type_rxattrcreate, do m ← decode_rxattrcreate; pure (rxattrcreate m))
    ∷ (type_treaddir, do m ← decode_treaddir; pure (treaddir m))
    ∷ (type_rreaddir, do m ← decode_rreaddir; pure (rreaddir m))
    ∷ (type_tfsync, do m ← decode_tfsync; pure (tfsync m))
    ∷ (type_rfsync, do m ← decode_rfsync; pure (rfsync m))
    ∷ (type_tlock, do m ← decode_tlock; pure (tlock m))
    ∷ (type_rlock, do m ← decode_rlock; pure (rlock m))
    ∷ (type_tgetlock, do m ← decode_tgetlock; pure (tgetlock m))
    ∷ (type_rgetlock, do m ← decode_rgetlock; pure (rgetlock m))
    ∷ (type_tlink, do m ← decode_tlink; pure (tlink m))
    ∷ (type_rlink, do m ← decode_rlink; pure (rlink m))
    ∷ (type_tmkdir, do m ← decode_tmkdir; pure (tmkdir m))
    ∷ (type_rmkdir, do m ← decode_rmkdir; pure (rmkdir m))
    ∷ (type_trenameat, do m ← decode_trenameat; pure (trenameat m))
    ∷ (type_rrenameat, do m ← decode_rrenameat; pure (rrenameat m))
    ∷ (type_tunlinkat, do m ← decode_tunlinkat; pure (tunlinkat m))
    ∷ (type_runlinkat, do m ← decode_runlinkat; pure (runlinkat m))
    ∷ []

-- `default`: the messages that both dialects share, or an error.
unfoldable pub p9l_shared : Option (Decoder BaseMessage) → Result (Decoder Message)
p9l_shared (some read) = ok (do m ← read; pure (shared m))
p9l_shared none = err unknown_type

unfoldable pub p9l_choose : Option (Decoder Message) → ℕ → Result (Decoder Message)
unfolding p9l_shared
p9l_choose (some read) t = ok read
p9l_choose none t = p9l_shared (new_base_message t)

unfoldable pub p9l_new_message : ℕ → Result (Decoder Message)
unfolding p9l_cases p9l_choose
p9l_new_message t = p9l_choose (switch t p9l_cases) t

-- `Encode` and `Decode` are EncodeFrame and DecodeFrame at these.
abbrev pub p9l : Dialect
p9l = record {
  Message = Message;
  type_of = p9l_type;
  encode_to = p9l_encode;
  new_message = p9l_new_message;
}
