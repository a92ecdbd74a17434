-- ===== src/Proto/Session.antt =====
-- proto/messages.go: version, authentication, attach and flush.
pub mod RoundTrip
pub mod Canonical
use ninep.Prelude.{ℕ}
use ninep.Proto.Base.{Bytes, IsU16, IsU32, Result, Decoder, ◌>>◌, ◌>>=◌, done, pure}
use ninep.Proto.Types.{Qid, QidInRange}
use ninep.Proto.Encode.{write_uint16, write_uint32, write_fid, write_string, write_qid}
use ninep.Proto.Decode.{read_uint16, read_uint32, read_fid, read_string, read_qid}

pub record Tversion : Type 0 where
  pub msize : ℕ
  pub version : Bytes

pub record TversionInRange (m : Tversion) : Type 0 where
  pub msize : IsU32 m.msize

unfoldable pub encode_tversion : Tversion → Result Bytes
encode_tversion m = do write_uint32 m.msize; write_string m.version; done

unfoldable pub decode_tversion : Decoder Tversion
decode_tversion = do
  msize ← read_uint32
  version ← read_string
  pure (record { msize = msize; version = version })

pub record Rversion : Type 0 where
  pub msize : ℕ
  pub version : Bytes

pub record RversionInRange (m : Rversion) : Type 0 where
  pub msize : IsU32 m.msize

unfoldable pub encode_rversion : Rversion → Result Bytes
encode_rversion m = do write_uint32 m.msize; write_string m.version; done

unfoldable pub decode_rversion : Decoder Rversion
decode_rversion = do
  msize ← read_uint32
  version ← read_string
  pure (record { msize = msize; version = version })

pub record Tauth : Type 0 where
  pub afid : ℕ
  pub uname : Bytes
  pub aname : Bytes
  pub n_uname : ℕ

pub record TauthInRange (m : Tauth) : Type 0 where
  pub afid : IsU32 m.afid
  pub n_uname : IsU32 m.n_uname

unfoldable pub encode_tauth : Tauth → Result Bytes
encode_tauth m = do
  write_fid m.afid
  write_string m.uname
  write_string m.aname
  write_uint32 m.n_uname
  done

unfoldable pub decode_tauth : Decoder Tauth
decode_tauth = do
  afid ← read_fid
  uname ← read_string
  aname ← read_string
  n_uname ← read_uint32
  pure (record { afid = afid; uname = uname; aname = aname; n_uname = n_uname })

pub record Rauth : Type 0 where
  pub aqid : Qid

pub record RauthInRange (m : Rauth) : Type 0 where
  pub aqid : QidInRange m.aqid

unfoldable pub encode_rauth : Rauth → Result Bytes
encode_rauth m = do write_qid m.aqid; done

unfoldable pub decode_rauth : Decoder Rauth
decode_rauth = do aqid ← read_qid; pure (record { aqid = aqid })

pub record Tattach : Type 0 where
  pub fid : ℕ
  pub afid : ℕ
  pub uname : Bytes
  pub aname : Bytes
  pub n_uname : ℕ

pub record TattachInRange (m : Tattach) : Type 0 where
  pub fid : IsU32 m.fid
  pub afid : IsU32 m.afid
  pub n_uname : IsU32 m.n_uname

unfoldable pub encode_tattach : Tattach → Result Bytes
encode_tattach m = do
  write_fid m.fid
  write_fid m.afid
  write_string m.uname
  write_string m.aname
  write_uint32 m.n_uname
  done

unfoldable pub decode_tattach : Decoder Tattach
decode_tattach = do
  fid ← read_fid
  afid ← read_fid
  uname ← read_string
  aname ← read_string
  n_uname ← read_uint32
  pure (record { fid = fid; afid = afid; uname = uname; aname = aname; n_uname = n_uname })

pub record Rattach : Type 0 where
  pub qid : Qid

pub record RattachInRange (m : Rattach) : Type 0 where
  pub qid : QidInRange m.qid

unfoldable pub encode_rattach : Rattach → Result Bytes
encode_rattach m = do write_qid m.qid; done

unfoldable pub decode_rattach : Decoder Rattach
decode_rattach = do qid ← read_qid; pure (record { qid = qid })

pub record Tflush : Type 0 where
  pub old_tag : ℕ

pub record TflushInRange (m : Tflush) : Type 0 where
  pub old_tag : IsU16 m.old_tag

unfoldable pub encode_tflush : Tflush → Result Bytes
encode_tflush m = do write_uint16 m.old_tag; done

unfoldable pub decode_tflush : Decoder Tflush
decode_tflush = do old_tag ← read_uint16; pure (record { old_tag = old_tag })

-- `Rflush` has an empty body.
abbrev pub Rflush : Type 0
Rflush = Unit {0}

unfoldable pub encode_rflush : Rflush → Result Bytes
encode_rflush m = done

unfoldable pub decode_rflush : Decoder Rflush
decode_rflush = pure tt
