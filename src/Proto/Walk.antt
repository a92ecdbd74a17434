-- ===== src/Proto/Walk.antt =====
-- proto/messages.go: walk, clunk and remove.
pub mod RoundTrip
pub mod Canonical
use ninep.Prelude.{ℕ, List, All, leb, length}
use ninep.Proto.Base.{
  Bytes, IsU32, Result, Decoder, ◌>>◌, ◌>>=◌, done, check, pure, guard, max_walk_elements,
  too_many_elements,
}
use ninep.Proto.Types.{Qid, QidInRange}
use ninep.Proto.Encode.{write_uint16, write_fid, write_string, write_qid, write_all}
use ninep.Proto.Decode.{read_uint16, read_fid, read_string, read_qid, read_many}

pub record Twalk : Type 0 where
  pub fid : ℕ
  pub new_fid : ℕ
  pub names : List Bytes

pub record TwalkInRange (m : Twalk) : Type 0 where
  pub fid : IsU32 m.fid
  pub new_fid : IsU32 m.new_fid

unfoldable pub encode_twalk : Twalk → Result Bytes
encode_twalk m = do
  check (leb (length m.names) max_walk_elements) too_many_elements
  write_fid m.fid
  write_fid m.new_fid
  write_uint16 (length m.names)
  write_all write_string m.names
  done

unfoldable pub decode_twalk : Decoder Twalk
decode_twalk = do
  fid ← read_fid
  new_fid ← read_fid
  nwname ← read_uint16
  _ ← guard (leb nwname max_walk_elements) too_many_elements
  names ← read_many nwname read_string
  pure (record { fid = fid; new_fid = new_fid; names = names })

pub record Rwalk : Type 0 where
  pub qids : List Qid

pub record RwalkInRange (m : Rwalk) : Type 0 where
  pub qids : All QidInRange m.qids

unfoldable pub encode_rwalk : Rwalk → Result Bytes
encode_rwalk m = do
  check (leb (length m.qids) max_walk_elements) too_many_elements
  write_uint16 (length m.qids)
  write_all write_qid m.qids
  done

unfoldable pub decode_rwalk : Decoder Rwalk
decode_rwalk = do
  nwqid ← read_uint16
  _ ← guard (leb nwqid max_walk_elements) too_many_elements
  qids ← read_many nwqid read_qid
  pure (record { qids = qids })

pub record Tclunk : Type 0 where
  pub fid : ℕ

pub record TclunkInRange (m : Tclunk) : Type 0 where
  pub fid : IsU32 m.fid

unfoldable pub encode_tclunk : Tclunk → Result Bytes
encode_tclunk m = do write_fid m.fid; done

unfoldable pub decode_tclunk : Decoder Tclunk
decode_tclunk = do fid ← read_fid; pure (record { fid = fid })

-- `Rclunk` has an empty body.
abbrev pub Rclunk : Type 0
Rclunk = Unit {0}

unfoldable pub encode_rclunk : Rclunk → Result Bytes
encode_rclunk m = done

unfoldable pub decode_rclunk : Decoder Rclunk
decode_rclunk = pure tt

pub record Tremove : Type 0 where
  pub fid : ℕ

pub record TremoveInRange (m : Tremove) : Type 0 where
  pub fid : IsU32 m.fid

unfoldable pub encode_tremove : Tremove → Result Bytes
encode_tremove m = do write_fid m.fid; done

unfoldable pub decode_tremove : Decoder Tremove
decode_tremove = do fid ← read_fid; pure (record { fid = fid })

-- `Rremove` has an empty body.
abbrev pub Rremove : Type 0
Rremove = Unit {0}

unfoldable pub encode_rremove : Rremove → Result Bytes
encode_rremove m = done

unfoldable pub decode_rremove : Decoder Rremove
decode_rremove = pure tt
